-- ===== src/Logger/Endpoint/Action/Audit.antt =====
-- What `takeAction` does to the cluster.
use kubernetes_cluster_monit.Kube.{
  Pod, Deployment, Event, listed_deployments, listed_pods, got_deployment, updated_deployment,
  History, Kube,
}
use kubernetes_cluster_monit.Logger.Endpoint.Action.{
  find_pod, Answer, quarantine_action, action_of, quarantine_target, quarantine, act, visit_listed,
  visit_candidate, take_action,
}
use kubernetes_cluster_monit.Prelude.{
  ◌≡◌, refl, sym, subst, inl, inr, true, false, some, List, [], ◌∷◌, ◌++◌, Memᴰ, Bool-cases,
  Option-cases, All,
}
use kubernetes_cluster_monit.Prelude.Dict.{entries}
use kubernetes_cluster_monit.Prelude.Program.{
  Out, next, Reply, Since, begun, followed, After, Triple, pure_post-Triple, call-Triple,
  bind-Triple, deref_bind-Triple, weaken-Triple, for_state-Triple,
}
use kubernetes_cluster_monit.Prelude.Text.{Text, text_eq}

-- A call writes the deployment that was read just before, in the same namespace, with no replicas;
-- its name was listed there.
pub record IsQuarantine (ns : Text) (d : Deployment) (h : History) : Type 0 where
  pub name : Text
  pub selector : Text
  pub found : Reply Deployment
  pub reply : Reply (List Deployment)
  pub target : Deployment
  pub before : History
  pub read : h ≡ got_deployment ns name found ∷ before
  pub seen : Memᴰ (listed_deployments ns selector reply) before
  pub listed : Memᴰ target reply.value
  pub named : name ≡ target.name
  pub written : d ≡ (let dp = found.value in record dp { replicas = some 0 })

-- What the endpoint may do.
abbrev pub Quarantines : History → Event → Type 0
Quarantines h (updated_deployment ns d reply) = IsQuarantine ns d h
Quarantines h (listed_deployments ns selector reply) = Unit
Quarantines h (listed_pods ns selector reply) = Unit
Quarantines h (got_deployment ns name reply) = Unit
Quarantines h _ = ⊥

-- The deployment of this name has been read and written with no replicas, whatever was answered.
pub record WasQuarantined (h : History) (name : Text) : Type 0 where
  pub ns : Text
  pub found : Reply Deployment
  pub answer : Reply Deployment
  pub read : Memᴰ (got_deployment ns name found) h
  pub written :
      Memᴰ
        (updated_deployment ns (let dp = found.value in record dp { replicas = some 0 }) answer)
        h

module _ (k : Kube) (h₀ : History) where
  abbrev Audited : History → Type 0
  Audited = Since Quarantines h₀

  -- Each name to be answered was quarantined.
  abbrev Named : List Text → History → Type 0
  Named resp h = All (WasQuarantined h) resp

  Named-cons : (e : Event) (h : History) (resp : List Text) → Named resp h → Named resp (e ∷ h)
  Named-cons e h [] n = tt
  Named-cons e h (r ∷ resp) n = (
    record {
      ns = n.0.ns;
      found = n.0.found;
      answer = n.0.answer;
      read = Memᴰ.tail n.0.read;
      written = Memᴰ.tail n.0.written;
    },
    Named-cons e h resp n.1,
  )

  All-concat :
      {h : History} (resp : List Text) (r : Text)
      → Named resp h
      → WasQuarantined h r
      → Named (resp ++ r ∷ []) h
  All-concat [] r n w = (w, tt)
  All-concat (s ∷ resp) r n w = (n.0, All-concat resp r n.1 w)

  module _ (ns selector : Text) (reply : Reply (List Deployment)) where
    abbrev Loop : List Text → History → Type 0
    Loop resp h = Memᴰ (listed_deployments ns selector reply) h × Named resp h

    -- After the read, before the update.
    record Read (name : Text) (resp : List Text) (found : Reply Deployment) (h : History)
        : Type 0 where
      before : History
      is_read : h ≡ got_deployment ns name found ∷ before
      seen : Memᴰ (listed_deployments ns selector reply) before
      names : Named resp before

    quarantine_target-Triple :
        (target : Deployment)
        → Memᴰ target reply.value
        → (resp : List Text)
        → Triple Audited (Loop resp) (quarantine_target k ns target resp) (λ after. Loop after.0)
    unfolding quarantine_target
    quarantine_target-Triple target m resp =
        bind-Triple {Q = Read target.name resp}
          (call-Triple _ _ (λ h i p.
            (followed i tt, record { before = h; is_read = refl; seen = p.0; names = p.1 })))
          λ found.
            bind-Triple {Q = λ _. Loop (resp ++ target.name ∷ [])}
              (call-Triple _ _ (λ h i p. (
                followed i (record {
                  name = target.name;
                  selector = selector;
                  found = found;
                  reply = reply;
                  target = target;
                  before = p.before;
                  read = p.is_read;
                  seen = p.seen;
                  listed = m;
                  named = refl;
                  written = refl;
                }),
                (
                  Memᴰ.tail (subst (Memᴰ _) (sym p.is_read) (Memᴰ.tail p.seen)),
                  All-concat resp target.name
                      (Named-cons _ _ resp
                        (subst (Named resp) (sym p.is_read) (Named-cons _ p.before resp p.names)))
                      (record {
                        ns = ns;
                        found = found;
                        answer = k.update h ns (record found.value { replicas = some 0 });
                        read = Memᴰ.tail (subst (Memᴰ _) (sym p.is_read) (Memᴰ.head refl));
                        written = Memᴰ.head refl;
                      }),
                ),
              )))
              (λ _. pure_post-Triple _ (λ h p. p))

  quarantine-Triple :
      (ns selector : Text) (resp : List Text)
      → Triple Audited (Named resp) (quarantine k ns selector resp) Named
  unfolding quarantine
  quarantine-Triple ns selector resp =
      bind-Triple {Q = λ r. Loop ns selector r resp}
        (call-Triple _ _ (λ h i p. (followed i tt, (Memᴰ.head refl, Named-cons _ h resp p))))
        λ targets.
          weaken-Triple _
            (for_state-Triple {P = Loop ns selector targets} _ targets.value
              (quarantine_target-Triple ns selector targets) resp)
            (λ _ h p. p.1)

  act-Triple :
      (dp : Deployment) (pod : Pod) (resp : List Text)
      → Triple Audited (Named resp) (act k dp pod resp) Named
  unfolding act
  act-Triple dp pod resp =
      elim (Bool-cases (text_eq (action_of (entries dp.annotations)) quarantine_action)) [
        | inl e ↦ rw e (quarantine-Triple pod.namespace _ resp)
        | inr e ↦ rw e (pure_post-Triple resp (λ h p. p))
      ]

  visit_listed-Triple :
      (podname : Text) (dp : Deployment) (pods : Reply (List Pod)) (resp : List Text)
      → Triple Audited (Named resp) (visit_listed k podname dp pods resp) (λ after. Named after.0)
  unfolding visit_listed
  visit_listed-Triple podname dp pods resp = elim (Option-cases pods.error) [
    | inr (err, e) ↦ rw (e, visit_listed) (pure_post-Triple (resp, false) (λ h p. p))
    | inl e ↦
        rw (e, visit_listed)
          (elim (Option-cases (find_pod podname pods.value)) [
            | inl n ↦ rw (n, visit_listed) (pure_post-Triple (resp, false) (λ h p. p))
            | inr (pod, f) ↦
                rw (f, visit_listed)
                  (bind-Triple (act-Triple dp pod resp)
                    (λ after. pure_post-Triple (after, true) (λ h p. p)))
          ])
  ]

  visit_candidate-Triple :
      (podname : Text) (dp : Deployment) (resp : List Text)
      → Triple Audited (Named resp) (visit_candidate k podname dp resp) (λ after. Named after.0)
  unfolding visit_candidate
  visit_candidate-Triple podname dp resp = deref_bind-Triple _ _ λ selector e.
      bind-Triple {Q = λ _. Named resp}
        (call-Triple _ _ (λ h i p. (followed i tt, Named-cons _ h resp p)))
        (λ pods. visit_listed-Triple podname dp pods resp)

  pub take_action-Triple :
      (podname : Text) → Triple Audited (λ _. Unit) (take_action k podname) Named
  unfolding take_action
  take_action-Triple podname =
      bind-Triple {Q = λ _. Named []} (call-Triple _ _ (λ h i p. (followed i tt, tt))) λ dps.
        for_state-Triple {P = Named} _ dps.value (λ dp m. visit_candidate-Triple podname dp) []

-- Whatever the server answers, `takeAction` only lists and reads, and writes deployments that it
-- listed and read just before, unchanged but for the number of replicas, which is 0.
pub take_action-Since :
    (k : Kube) (podname : Text) (h : History) → Since Quarantines h (take_action k podname h).1
take_action-Since k podname h = (Triple.run (take_action-Triple k h podname) h begun tt).0

-- Each name that `takeAction` answers was read and written with 0 replicas, whatever the server
-- answered to the write.
pub take_action-WasQuarantined :
    (k : Kube) (podname : Text) (h h' : History) (names : List Text)
    → take_action k podname h ≡ (next names, h')
    → All (WasQuarantined h') names
take_action-WasQuarantined k podname h h' names e =
    subst
      (λ (o : Out Answer (List Text) × History). After (λ r g. All (WasQuarantined g) r) o.0 o.1) e
      (Triple.run (take_action-Triple k h podname) h begun tt).1
