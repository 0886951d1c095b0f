-- ===== src/Webhook/Mutation/Decision.antt =====
-- What `mutationRequired` decides.
use kubernetes_cluster_monit.Kube.{Pod, Deployment, History, Kube}
use kubernetes_cluster_monit.Kube.Steady.{IsSteady, has_policy, covers}
use kubernetes_cluster_monit.Prelude.{
  ◌≡◌, ◌∙◌, ◌⊎◌, inl, inr, Bool, true, false, not, ◌&&◌, ◌||◌, some, List, [], ◌∷◌, arith,
  Bool-cases, any,
}
use kubernetes_cluster_monit.Prelude.Program.{next, return, for_state, result, program}
use kubernetes_cluster_monit.Prelude.Text.{Text, text_eq}
use kubernetes_cluster_monit.Webhook.Mutation.{
  is_ignored, has_status, opts_in, scan, visit_deployment, visit_pod, mutation_required,
}

-- A pod in an ignored namespace, or with the status of an injection, is refused with no call made.
pub mutation_required-refuses :
    (k : Kube) (ignored : List Text) (pod : Pod) (h : History)
    → (is_ignored ignored pod.namespace ≡ true) ⊎ (has_status pod.annotations ≡ true)
    → mutation_required (some k) ignored pod h ≡ (return false, h)
unfolding mutation_required program
mutation_required-refuses k ignored pod h c = elim (Bool-cases (is_ignored ignored pod.namespace)) [
  | inl e ↦ rw e
  | inr e ↦ elim c [ inl i ↦ cc | inr s ↦ rw (e, s) ]
]

any-scan :
    (name : Text) (qs : List Pod) (required : Bool)
    → scan name qs required ≡ (required || any (λ q. text_eq q.name name) qs)
unfolding scan
any-scan name [] required = ground arith
any-scan name (q ∷ qs) required = ground (arith, any-scan name qs required)

module _ {k : Kube} {ns : Text} {pods : Text → List Pod} {dps : List Deployment}
    {selector : Deployment → Text} (steady : IsSteady k ns pods dps selector) where
  visit_deployment-steady :
      (name : Text) (dp : Deployment) (required : Bool) (h : History)
      → let after = required || covers pods selector name dp in
        (visit_deployment k ns name dp required h).0 ≡ next (after, has_policy dp && after)
  unfolding visit_deployment program
  visit_deployment-steady name dp required h = elim (Bool-cases (has_policy dp)) [
    | inl e ↦ rw e (
        rw (steady.selector_is dp)
          (rw (steady.pods_are h (selector dp)) (rw (any-scan name (pods (selector dp)) required))))
    | inr e ↦ rw e (ground arith)
  ]

  loop-steady :
      (name : Text) (ds : List Deployment) (required : Bool) (h : History)
      → (for_state (visit_deployment k ns name) ds required h).0
        ≡ next (required || any (covers pods selector name) ds)
  unfolding for_state program
  loop-steady name [] required h = ground arith
  loop-steady name (dp ∷ ds) required h =
      rw (visit_deployment-steady name dp required h)
        (elim (Bool-cases (has_policy dp && (required || covers pods selector name dp))) [
          | inl e ↦ rw e (ground arith)
          | inr e ↦ rw e (loop-steady name ds _ _ ∙ ground arith)
        ])

  -- A deployment with a policy selects a pod of that name.
  abbrev pub covered : Pod → Bool
  covered p = any (covers pods selector p.name) dps

  visit_pod-steady :
      (p : Pod) (required : Bool) (h : History)
      → (visit_pod k ns p required h).0 ≡ next (required || covered p, required || covered p)
  unfolding visit_pod program
  visit_pod-steady p required h =
      rw (steady.deployments_are h) (rw (loop-steady p.name dps required _))

  pods_loop-steady :
      (ps : List Pod) (required : Bool) (h : History)
      → (for_state (visit_pod k ns) ps required h).0 ≡ next (required || any covered ps)
  unfolding for_state program
  pods_loop-steady [] required h = ground arith
  pods_loop-steady (p ∷ ps) required h =
      rw (visit_pod-steady p required h) (elim (Bool-cases (required || covered p)) [
        | inl e ↦ rw e (ground arith)
        | inr e ↦ rw e (pods_loop-steady ps false _ ∙ ground arith)
      ])

-- Over a steady server the function always returns, and it says yes exactly if the namespace is not
-- ignored, the pod has no status of an injection, and the pod opts in by its own annotation or a
-- deployment with a policy selects some pod that has the name of a pod with the labels of the new one.
-- In the second case its own annotation plays no part: it may also say no.
pub mutation_required-steady :
    {k : Kube} (pod : Pod) {pods : Text → List Pod} {dps : List Deployment}
    {selector : Deployment → Text} (steady : IsSteady k pod.namespace pods dps selector)
    (ignored : List Text) (h : History)
    → result (mutation_required (some k) ignored pod h).0
      ≡ some (
          not (is_ignored ignored pod.namespace)
          && (not (has_status pod.annotations)
              && (opts_in pod.annotations
                  || any
                      (λ p. any (covers pods selector p.name) dps)
                      (pods (k.set_selector pod.labels)))))
unfolding mutation_required program
mutation_required-steady {k} pod {pods} {dps} {selector} steady ignored h =
    elim (Bool-cases (is_ignored ignored pod.namespace)) [
      | inl e ↦ rw e
      | inr e ↦ elim (Bool-cases (has_status pod.annotations)) [
        | inl s ↦ rw (e, s)
        | inr s ↦
            rw (e, s)
              (rw (steady.pods_are h (k.set_selector pod.labels)) (
                rw (
                  pods_loop-steady steady (pods (k.set_selector pod.labels))
                    (opts_in pod.annotations) _)))
      ]
    ]
