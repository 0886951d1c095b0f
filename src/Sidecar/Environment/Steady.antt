-- ===== src/Sidecar/Environment/Steady.antt =====
-- `setEnvironment` over a steady server.
use kubernetes_cluster_monit.Keys.{annotation_key}
use kubernetes_cluster_monit.Kube.{Pod, Deployment, History, Kube}
use kubernetes_cluster_monit.Kube.Steady.{IsSteady, has_policy, covers}
use kubernetes_cluster_monit.Prelude.{
  ◌≡◌, refl, inl, inr, Bool, Option, none, some, List, [], ◌∷◌, arith, if◌then◌else◌, Bool-cases,
  Option-cases, any, find,
}
use kubernetes_cluster_monit.Prelude.Dict.{Dict, lookup, entries}
use kubernetes_cluster_monit.Prelude.Program.{next, for_state, program}
use kubernetes_cluster_monit.Prelude.Text.{Text, text_eq}
use kubernetes_cluster_monit.Sidecar.Environment.{
  set_policy, is_listed, offer_listed, offer, set_environment,
}

is_listed-any :
    (name : Text) (ps : List Pod) → is_listed name ps ≡ any (λ q. text_eq q.name name) ps
unfolding is_listed
is_listed-any name [] = refl
is_listed-any name (p ∷ ps) = ground (arith, is_listed-any name ps)

-- The environment that the first deployment gives which covers the pod.
abbrev pub given_by : Option Deployment → Dict → Dict
given_by none env = env
given_by (some dp) env = set_policy (entries dp.annotations) env

module _ {k : Kube} (pod : Pod) {pods : Text → List Pod} {dps : List Deployment}
    {selector : Deployment → Text} (steady : IsSteady k pod.namespace pods dps selector) where
  abbrev covering : Deployment → Bool
  covering = covers pods selector pod.name

  offer-steady :
      {R : Type 0} (dp : Deployment) (env : Dict) (h : History)
      → (offer k {R = R} pod dp env h).0
        ≡ next (if covering dp then given_by (some dp) env else env, covering dp)
  unfolding offer offer_listed program
  offer-steady dp env h = elim (Option-cases (lookup annotation_key (entries dp.annotations))) [
    | inl e ↦ rw (e, offer, has_policy)
    | inr (v, e) ↦
        rw (e, offer, has_policy)
          (rw (steady.selector_is dp) (
            rw (steady.pods_are h (selector dp))
              (rw (is_listed-any pod.name (pods (selector dp))) (ground arith))))
  ]

  offers-steady :
      {R : Type 0} (ds : List Deployment) (env : Dict) (h : History)
      → (for_state (offer k {R = R} pod) ds env h).0 ≡ next (given_by (find covering ds) env)
  unfolding for_state program
  offers-steady [] env h = refl
  offers-steady (dp ∷ ds) env h =
      rw (offer-steady dp env h)
        (elim (Bool-cases (covering dp)) [ inl e ↦ rw e | inr e ↦ rw e (offers-steady ds env _) ])

  pub set_environment-steady :
      {R : Type 0} (env : Dict) (h : History)
      → (set_environment k {R = R} pod env h).0 ≡ next (given_by (find covering dps) env)
  unfolding set_environment program
  set_environment-steady env h = rw (steady.deployments_are h) (offers-steady dps env _)
