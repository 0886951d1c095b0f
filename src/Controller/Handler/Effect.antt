-- ===== src/Controller/Handler/Effect.antt =====
-- What a handler makes of the deployments of a cluster, where no call fails and nobody else writes them.
pub mod Whole
pub mod Visits
pub mod Listed
use kubernetes_cluster_monit.Controller.Handler.{
  push_patch, pods_of, is_injected, restart, restart_missing, restart_injected, carry_out,
}
use kubernetes_cluster_monit.Controller.Handler.Covered.{IsObliging}
use kubernetes_cluster_monit.Kube.{Pod, Deployment, Event, History, Kube}
use kubernetes_cluster_monit.Kube.Cluster.{named, patch_between, Deployed, IsCluster}
use kubernetes_cluster_monit.Prelude.{
  ◌≡◌, refl, ◌∙◌, inl, inr, Bool, ◌&&◌, none, some, if◌then◌else◌, Bool-cases,
}
use kubernetes_cluster_monit.Prelude.Dict.{Dict}
use kubernetes_cluster_monit.Prelude.Program.{
  Prog, ◌>>=◌, for_each, Completes, pure-Completes, call-Completes, bind-Completes,
  weaken-Completes, check-Completes, return_on_error-Completes, deref-Completes,
  for_each_rest-Completes,
}
use kubernetes_cluster_monit.Prelude.Text.{Text, text_eq}

-- The deployments are the same after the calls between.
abbrev pub Alike : Deployed → History → History → Type 0
Alike deployed h h' = (ns name : Text) → deployed h' ns name ≡ deployed h ns name

-- One deployment is replaced.
abbrev pub Replaced : Deployed → Text → Deployment → Deployment → History → History → Type 0
Replaced deployed ns dp new h h' =
    (ns' name : Text)
    → deployed h' ns' name
      ≡ (if text_eq ns ns' && named name dp then some new else deployed h ns' name)

module _ {k : Kube} (good : IsObliging k) {deployed : Deployed} {selects : Text → Dict → Bool}
    (cluster : IsCluster k deployed selects) where
  pub delete_pod-Alike :
      (ns : Text) (pod : Pod) (h : History)
      → Completes (restart k ns pod) h (λ _ h'. Alike deployed h h')
  delete_pod-Alike ns pod h =
      bind-Completes
        (call-Completes {Q = λ err h'. (err ≡ none) × Alike deployed h h'} _ _ h
          (good.deletes h ns pod.name, λ ns' name. cluster.keeps h _ ns' name refl))
        (λ err h' g q. return_on_error-Completes err tt h' q.0 q.1)

  pub restart_missing-Alike :
      (ns : Text) (pod : Pod) (h : History)
      → Completes (restart_missing k ns pod) h (λ _ h'. Alike deployed h h')
  unfolding restart_missing
  restart_missing-Alike ns pod h = elim (Bool-cases (is_injected k pod)) [
    | inl e ↦ rw e (pure-Completes tt h (λ ns' name. refl))
    | inr e ↦ rw e (delete_pod-Alike ns pod h)
  ]

  pub restart_injected-Alike :
      (ns : Text) (pod : Pod) (h : History)
      → Completes (restart_injected k ns pod) h (λ _ h'. Alike deployed h h')
  unfolding restart_injected
  restart_injected-Alike ns pod h = elim (Bool-cases (is_injected k pod)) [
    | inl e ↦ rw e (delete_pod-Alike ns pod h)
    | inr e ↦ rw e (pure-Completes tt h (λ ns' name. refl))
  ]

  push_patch-Replaced :
      (ns : Text) (dp : Deployment) (m : Dict) (h : History)
      → deployed h ns dp.name ≡ some dp
      → Completes
          (push_patch k ns (k.marshal dp).value (record dp { annotations = some m }))
          h
          (λ _ h'. Replaced deployed ns dp (record dp { annotations = some m }) h h')
  unfolding push_patch
  push_patch-Replaced ns dp m h current =
      let bytes = patch_between k dp (record dp { annotations = some m }) in
      check-Completes _ tt _ h (good.marshals _) (
        check-Completes _ tt _ h (good.compares _ _) (
          check-Completes _ tt _ h (good.encodes _) (
            bind-Completes
              (call-Completes
                {Q = λ r h'.
                  (r.error ≡ none)
                  × Replaced deployed ns dp (record dp { annotations = some m }) h h'}
                _ _ h
                (
                  good.patches h ns dp.name bytes,
                  λ ns' name.
                      cluster.applies h ns dp m (k.patch h ns dp.name bytes) ns' name
                        (good.patches h ns dp.name bytes) current,
                ))
              λ patched h' g q.
                check-Completes patched tt _ h' q.0
                  (check-Completes _ tt _ h' (good.shows _) (pure-Completes tt h' q.1)))))

  module _ (each : Text → Pod → Prog Event (Unit {0}) (Unit {0}))
      (alike : (ns : Text) (pod : Pod) (h : History)
        → Completes (each ns pod) h (λ _ h'. Alike deployed h h')) where
    pods-Alike :
        (ns : Text) (dp : Deployment) (h : History)
        → Completes
            (pods_of k ns dp >>= λ pods. for_each (each ns) pods)
            h
            (λ _ h'. Alike deployed h h')
    pods-Alike ns dp h =
        let (selector, selector_is) = good.selects dp.selector in
        bind-Completes {Q = λ _ h'. Alike deployed h h'}
          (deref-Completes _ _ h selector_is (
            bind-Completes
              (call-Completes {Q = λ r h'. Alike deployed h h'} _ _ h
                (λ ns' name. cluster.keeps h _ ns' name refl))
              (λ reply h' g a. pure-Completes reply.value h' a)))
          (λ pods h' g a.
            for_each_rest-Completes (each ns) (λ rest h''. Alike deployed h h'') pods h' a
              (λ pod rest h'' b.
                weaken-Completes (alike ns pod h'')
                  (λ _ h₃ g' c ns' name. c ns' name ∙ b ns' name)))

    pub carry_out-Replaced :
        (ns : Text) (dp : Deployment) (m : Dict) (h : History)
        → deployed h ns dp.name ≡ some dp
        → Completes
            (carry_out k each ns (k.marshal dp).value (record dp { annotations = some m }))
            h
            (λ _ h'. Replaced deployed ns dp (record dp { annotations = some m }) h h')
    unfolding carry_out
    carry_out-Replaced ns dp m h current =
        bind-Completes (push_patch-Replaced ns dp m h current) λ _ h' g q.
          weaken-Completes (pods-Alike ns (record dp { annotations = some m }) h')
            (λ _ h'' g' a ns' name. a ns' name ∙ q ns' name)
