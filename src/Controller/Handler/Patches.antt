-- ===== src/Controller/Handler/Patches.antt =====
-- What carrying out a change of one deployment does to the record of calls.
use kubernetes_cluster_monit.Controller.Handler.{push_patch, pods_of, carry_out}
use kubernetes_cluster_monit.Controller.Handler.Allowed.{
  patch_bytes, IsPatchBy, Allowed, DeletesOnly,
}
use kubernetes_cluster_monit.Kube.{
  Pod, Deployment, Event, listed_deployments, listed_pods, History, Kube,
}
use kubernetes_cluster_monit.Prelude.{
  ◌≡◌, refl, subst, Bool, Option, some, List, ◌∷◌, Memᴰ, All-members,
}
use kubernetes_cluster_monit.Prelude.Dict.{Dict}
use kubernetes_cluster_monit.Prelude.Program.{
  Prog, Reply, pure, ◌>>=◌, for_each, Since, followed, Triple, pure-Triple, pure_post-Triple,
  call-Triple, bind-Triple, check_bind-Triple, deref_bind-Triple, weaken-Triple, for_each-Triple,
}
use kubernetes_cluster_monit.Prelude.Text.{Text}

module _ (k : Kube) (change : Option Dict → Option Dict) (injected : Bool)
    (each : Text → Pod → Prog Event (Unit {0}) (Unit {0})) (only : DeletesOnly k injected each)
    (h₀ : History) (ns selector : Text) (reply : Reply (List Deployment)) where
  abbrev pub Audited : History → Type 0
  Audited = Since (Allowed k change injected) h₀

  -- The listing that the loop over the deployments runs through has been made.
  abbrev pub Shown : History → Type 0
  Shown h = Memᴰ (listed_deployments ns selector reply) h

  push_patch-Triple :
      (dp : Deployment) (m : Dict)
      → Memᴰ dp reply.value
      → change dp.annotations ≡ some m
      → Triple Audited Shown
          (push_patch k ns (k.marshal dp).value (record dp { annotations = some m }))
          (λ _. Shown)
  unfolding push_patch
  push_patch-Triple dp m l c =
      check_bind-Triple (k.marshal (record dp { annotations = some m })) tt _ (
        check_bind-Triple _ tt _ (
          check_bind-Triple _ tt _ (
            bind-Triple {Q = λ _. Shown}
              (call-Triple _ _ (λ h i p. (followed i (justified h p), Memᴰ.tail p)))
              (λ patched.
                check_bind-Triple patched tt _ (check_bind-Triple _ tt _ (pure-Triple tt))))))
    where
      justified : (h : History) → Shown h → IsPatchBy k change ns dp.name (patch_bytes k dp m) h
      justified h p = record {
        selector = selector;
        reply = reply;
        dp = dp;
        written = m;
        seen = p;
        listed = l;
        named = refl;
        changed = c;
        sent = refl;
      }

  -- The pods of the loop come from a listing that has been made.
  record PodsListed (pods : List Pod) (h : History) : Type 0 where
    before : Shown h
    pod_selector : Text
    pod_reply : Reply (List Pod)
    pods_seen : Memᴰ (listed_pods ns pod_selector pod_reply) h
    pods_are : pods ≡ pod_reply.value

  PodsListed-cons :
      {pods : List Pod} {h : History} (e : Event) → PodsListed pods h → PodsListed pods (e ∷ h)
  PodsListed-cons e l = record {
    before = Memᴰ.tail l.before;
    pod_selector = l.pod_selector;
    pod_reply = l.pod_reply;
    pods_seen = Memᴰ.tail l.pods_seen;
    pods_are = l.pods_are;
  }

  pods_of-Triple : (dp : Deployment) → Triple Audited Shown (pods_of k ns dp) PodsListed
  pods_of-Triple dp = deref_bind-Triple _ _ λ sel e.
      bind-Triple {Q = λ r. PodsListed r.value}
        (call-Triple _ _ (λ h i p. (
          followed i tt,
          record {
            before = Memᴰ.tail p;
            pod_selector = sel;
            pod_reply = k.pods h ns sel;
            pods_seen = Memᴰ.head refl;
            pods_are = refl;
          },
        )))
        (λ r. pure_value-Triple r.value)
    where
      pure_value-Triple :
          (v : List Pod) → Triple Audited (PodsListed v) (pure {R = Unit {0}} v) PodsListed
      pure_value-Triple v = pure_post-Triple v (λ h p. p)

  restarts-Triple :
      (dp : Deployment)
      → Triple Audited Shown (pods_of k ns dp >>= λ pods. for_each (each ns) pods) (λ _. Shown)
  restarts-Triple dp = bind-Triple (pods_of-Triple dp) λ pods.
      weaken-Triple _ (for_each-Triple (each ns) pods (All-members _ pods (one pods)))
        (λ _ h l. l.before)
    where
      one :
          (pods : List Pod) (pod : Pod)
          → Memᴰ pod pods
          → Triple Audited (PodsListed pods) (each ns pod) (λ _. PodsListed pods)
      one pods pod m = only Audited (PodsListed pods) ns pod λ h err state i l. (
        followed i (record {
          selector = l.pod_selector;
          reply = l.pod_reply;
          pod = pod;
          seen = l.pods_seen;
          listed = subst (Memᴰ pod) l.pods_are m;
          named = refl;
          state = state;
        }),
        PodsListed-cons _ l,
      )

  pub carry_out-Triple :
      (dp : Deployment) (m : Dict)
      → Memᴰ dp reply.value
      → change dp.annotations ≡ some m
      → Triple Audited Shown
          (carry_out k each ns (k.marshal dp).value (record dp { annotations = some m }))
          (λ _. Shown)
  unfolding carry_out
  carry_out-Triple dp m l c =
      bind-Triple (push_patch-Triple dp m l c)
        (λ _. restarts-Triple (record dp { annotations = some m }))
