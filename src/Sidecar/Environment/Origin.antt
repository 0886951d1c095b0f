-- ===== src/Sidecar/Environment/Origin.antt =====
-- Where the environment of a sidecar comes from.
use kubernetes_cluster_monit.Keys.{annotation_key}
use kubernetes_cluster_monit.Kube.{Pod, Deployment, listed_deployments, listed_pods, History, Kube}
use kubernetes_cluster_monit.Prelude.{
  ◌≡◌, refl, sym, subst, inl, inr, true, false, some, List, [], Memᴰ, if◌then◌else◌, Bool-cases,
  Option-cases,
}
use kubernetes_cluster_monit.Prelude.Dict.{Dict, lookup, entries}
use kubernetes_cluster_monit.Prelude.Program.{
  Out, next, Reply, After, Triple, pure_post-Triple, call-Triple, bind-Triple, deref_bind-Triple,
  search-Triple, Mem-Extends, IsStable,
}
use kubernetes_cluster_monit.Prelude.Text.{Text}
use kubernetes_cluster_monit.Sidecar.Environment.{
  set_policy, is_listed, offer_listed, offer, set_environment,
}

-- The environment is the old one, or a deployment that was listed in the pod's namespace, that has a
-- policy, and whose pods, as listed by its own selector, have the pod's name among them, has given it its policy.
pub data FromPolicy (k : Kube) (pod : Pod) (env : Dict) : Dict → History → Type 0 where
  kept : {h : History} → FromPolicy k pod env env h
  given :
      {h : History} (dps : Reply (List Deployment)) (dp : Deployment) (v selector : Text)
      (pods : Reply (List Pod))
      → Memᴰ (listed_deployments pod.namespace [] dps) h
      → Memᴰ dp dps.value
      → lookup annotation_key (entries dp.annotations) ≡ some v
      → (k.as_selector dp.selector).value ≡ some selector
      → Memᴰ (listed_pods pod.namespace selector pods) h
      → is_listed pod.name pods.value ≡ true
      → FromPolicy k pod env (set_policy (entries dp.annotations) env) h

pub FromPolicy-IsStable :
    (k : Kube) (pod : Pod) (env env' : Dict) → IsStable (FromPolicy k pod env env')
FromPolicy-IsStable k pod env _ h h' g kept = kept
FromPolicy-IsStable k pod env _ h h' g (given dps dp v selector pods d m l q p i) =
    given dps dp v selector pods (Mem-Extends g d) m l q (Mem-Extends g p) i

module _ (k : Kube) (pod : Pod) (env : Dict) where
  abbrev Nothing : History → Type 0
  Nothing h = Unit

  -- So far the environment is the old one.
  abbrev Searching : Reply (List Deployment) → Dict → History → Type 0
  Searching dps e h = Memᴰ (listed_deployments pod.namespace [] dps) h × (e ≡ env)

  offer_listed-After :
      (dps : Reply (List Deployment)) (dp : Deployment) (v selector : Text)
      (pods : Reply (List Pod)) (e : Dict) (h : History)
      → Memᴰ dp dps.value
      → lookup annotation_key (entries dp.annotations) ≡ some v
      → (k.as_selector dp.selector).value ≡ some selector
      → Memᴰ (listed_pods pod.namespace selector pods) h
      → Searching dps e h
      → (let after = offer_listed pod (entries dp.annotations) e pods in
          (if after.1 then FromPolicy k pod env after.0 else Searching dps after.0) h)
  unfolding offer_listed
  offer_listed-After dps dp v selector pods e h m l chosen seen p = elim (Option-cases pods.error) [
    | inr (err, r) ↦ rw (r, offer_listed) p
    | inl r ↦
        rw (r, offer_listed)
          (elim (Bool-cases (is_listed pod.name pods.value)) [
            | inl y ↦
                rw (y, offer_listed)
                  (subst (λ x. FromPolicy k pod env (set_policy (entries dp.annotations) x) h)
                    (sym p.1) (given dps dp v selector pods p.0 m l chosen seen y))
            | inr n ↦ rw (n, offer_listed) p
          ])
  ]

  offer-Triple :
      {R : Type 0} (dps : Reply (List Deployment)) (dp : Deployment)
      → Memᴰ dp dps.value
      → (e : Dict)
      → Triple Nothing
          (Searching dps e)
          (offer k {R = R} pod dp e)
          (λ after. if after.1 then FromPolicy k pod env after.0 else Searching dps after.0)
  unfolding offer
  offer-Triple {R} dps dp m e =
      elim (Option-cases (lookup annotation_key (entries dp.annotations))) [
        | inl n ↦ rw (n, offer) (pure_post-Triple (e, false) (λ h p. p))
        | inr (v, l) ↦
            rw (l, offer)
              (deref_bind-Triple _ _ λ selector q.
                bind-Triple
                  {Q = λ r h. Memᴰ (listed_pods pod.namespace selector r) h × Searching dps e h}
                  (call-Triple _ _ (λ h i p. (tt, (Memᴰ.head refl, (Memᴰ.tail p.0, p.1)))))
                  λ reply.
                    pure_post-Triple _
                      (λ h p. offer_listed-After dps dp v selector reply e h m l q p.0 p.1))
      ]

  set_environment-Triple :
      {R : Type 0}
      → Triple Nothing Nothing (set_environment k {R = R} pod env) (FromPolicy k pod env)
  unfolding set_environment
  set_environment-Triple {R} =
      bind-Triple {Q = λ r. Searching r env}
        (call-Triple _ _ (λ h i p. (tt, (Memᴰ.head refl, refl))))
        λ dps.
          search-Triple {P = Searching dps} _ dps.value (offer-Triple dps)
            (λ s h p. subst (λ x. FromPolicy k pod env x h) (sym p.1) kept) env

-- Whatever the server answers, where `setEnvironment` ends, it has left the environment as it was, or
-- has set in it the policy of a deployment that has the annotation, that was listed in the pod's
-- namespace, and among whose pods, as listed there by its selector, one has the pod's name.
pub set_environment-FromPolicy :
    (k : Kube) {R : Type 0} (pod : Pod) (env env' : Dict) (h h' : History)
    → set_environment k {R = R} pod env h ≡ (next env', h')
    → FromPolicy k pod env env' h'
set_environment-FromPolicy k {R} pod env env' h h' e =
    subst (λ (o : Out R Dict × History). After (FromPolicy k pod env) o.0 o.1) e
      (Triple.run (set_environment-Triple k pod env {R = R}) h tt tt).1
