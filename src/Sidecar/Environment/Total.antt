-- ===== src/Sidecar/Environment/Total.antt =====
-- `setEnvironment` comes to its end where every selector can be read.
use kubernetes_cluster_monit.Keys.{annotation_key}
use kubernetes_cluster_monit.Kube.{Pod, Deployment, History, Kube}
use kubernetes_cluster_monit.Prelude.{◌≡◌, inl, inr, false, some, Option-cases}
use kubernetes_cluster_monit.Prelude.Dict.{Dict, lookup, entries}
use kubernetes_cluster_monit.Prelude.Program.{
  Completes, pure-Completes, call-Completes, bind-Completes, deref-Completes, for_state-Completes,
}
use kubernetes_cluster_monit.Prelude.Text.{Text}
use kubernetes_cluster_monit.Sidecar.Environment.{offer, set_environment}
use kubernetes_cluster_monit.Sidecar.Environment.Origin.{FromPolicy, set_environment-FromPolicy}

module _ (k : Kube) (selects : (s : Text) → (t : Text) × ((k.as_selector s).value ≡ some t)) where
  offer-Completes :
      {R : Type 0} (pod : Pod) (dp : Deployment) (env : Dict) (h : History)
      → Completes (offer k {R = R} pod dp env) h (λ _ _. Unit)
  unfolding offer
  offer-Completes pod dp env h =
      elim (Option-cases (lookup annotation_key (entries dp.annotations))) [
        | inl e ↦ rw (e, offer) (pure-Completes (env, false) h tt)
        | inr (v, e) ↦
            rw (e, offer)
              (deref-Completes _ _ h (selects dp.selector).1 (
                bind-Completes {Q = λ _ _. Unit} (call-Completes _ _ h tt)
                  (λ reply h' g u. pure-Completes _ h' tt)))
      ]

  pub set_environment-Completes :
      {R : Type 0} (pod : Pod) (env : Dict) (h : History)
      → Completes (set_environment k {R = R} pod env) h (FromPolicy k pod env)
  unfolding set_environment
  set_environment-Completes {R} pod env h =
      let c : Completes (set_environment k {R = R} pod env) h (λ _ _. Unit) =
        bind-Completes {Q = λ _ _. Unit} (call-Completes _ _ h tt) λ dps h' g u.
          for_state-Completes {P = λ _ _. Unit} (offer k pod) dps.value
            (λ dp e h'' p. offer-Completes pod dp e h'') env h' tt in
      record {
        value = c.value;
        after = c.after;
        goes_on = c.goes_on;
        grows = c.grows;
        holds = set_environment-FromPolicy k pod env c.value h c.after c.goes_on;
      }
