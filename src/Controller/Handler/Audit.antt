-- ===== src/Controller/Handler/Audit.antt =====
-- Everything that a handler does to the cluster is one of the calls that its policy allows.
use kubernetes_cluster_monit.Controller.Handler.{
  receiver, restart_missing, restart_injected, add_policy, remove_policy, visit_namespace,
  visit_all, object_created, object_deleted,
}
use kubernetes_cluster_monit.Controller.Handler.Allowed.{
  Allowed, restart_missing-DeletesOnly, restart_injected-DeletesOnly,
}
use kubernetes_cluster_monit.Controller.Handler.Patches.{carry_out-Triple}
use kubernetes_cluster_monit.Controller.Policy.{namespaces, Policy, policy, annotate, unannotate}
use kubernetes_cluster_monit.Kube.{Deployment, Event, listed_deployments, History, Kube}
use kubernetes_cluster_monit.Prelude.{
  refl, inl, inr, Bool, true, false, Option, List, [], Memᴰ, Bool-cases, Option-cases, All-members,
}
use kubernetes_cluster_monit.Prelude.Dict.{Dict}
use kubernetes_cluster_monit.Prelude.Program.{
  Prog, Reply, program, Since, begun, followed, Triple, pure-Triple, exit-Triple, call-Triple,
  bind-Triple, check_bind-Triple, weaken-Triple, for_each-Triple, for_break-Triple,
}
use kubernetes_cluster_monit.Prelude.Text.{Text, text_eq}
use kubernetes_cluster_monit.Receiver.{ReceiverSpec, Receiver}

module _ (k : Kube) (h₀ : History) where
  abbrev Nothing : History → Type 0
  Nothing h = Unit

  abbrev Body :
      (Option Dict → Option Dict)
      → Bool
      → (Text → Deployment → Prog Event (Unit {0}) (Unit {0}))
      → Type 0
  Body change injected each =
      (ns selector : Text) (reply : Reply (List Deployment)) (dp : Deployment)
      → Memᴰ dp reply.value
      → Triple (Since (Allowed k change injected) h₀)
          (λ h. Memᴰ (listed_deployments ns selector reply) h) (each ns dp)
          (λ _ h. Memᴰ (listed_deployments ns selector reply) h)

  add_policy-Body : (p : Policy) → Body (annotate p) false (add_policy k p)
  unfolding add_policy
  add_policy-Body p ns selector reply dp l =
      check_bind-Triple _ tt _ (elim (Option-cases (annotate p dp.annotations)) [
        | inl e ↦ rw e (pure-Triple tt)
        | inr (m, e) ↦ rw e (
            carry_out-Triple k (annotate p) false (restart_missing k)
              (restart_missing-DeletesOnly k) h₀ ns selector reply dp m l e)
      ])

  remove_policy-Body : Body unannotate true (remove_policy k)
  unfolding remove_policy
  remove_policy-Body ns selector reply dp l =
      check_bind-Triple _ tt _ (elim (Option-cases (unannotate dp.annotations)) [
        | inl e ↦ rw e (exit-Triple tt)
        | inr (m, e) ↦ rw e (
            carry_out-Triple k unannotate true (restart_injected k) (restart_injected-DeletesOnly k)
              h₀ ns selector reply dp m l e)
      ])

  module _ {change : Option Dict → Option Dict} {injected : Bool}
      (each : Text → Deployment → Prog Event (Unit {0}) (Unit {0}))
      (body : Body change injected each) where
    visit_namespace-Triple :
        (expression ns : Text)
        → Triple
            (Since (Allowed k change injected) h₀)
            Nothing
            (visit_namespace k each expression ns)
            (λ _. Nothing)
    unfolding visit_namespace
    visit_namespace-Triple expression ns =
        bind-Triple {Q = λ r h. Memᴰ (listed_deployments ns expression r) h}
          (call-Triple _ _ (λ h i p. (followed i tt, Memᴰ.head refl)))
          λ reply. check_bind-Triple reply tt _ (
            weaken-Triple _
              (for_each-Triple (each ns) reply.value
                (All-members _ reply.value (body ns expression reply)))
              (λ _ _ _. tt))

    visit_all-Triple :
        (spec : ReceiverSpec)
        → Triple
            (Since (Allowed k change injected) h₀)
            Nothing
            (visit_all k each spec)
            (λ _. Nothing)
    unfolding visit_all
    visit_all-Triple spec = for_break-Triple _ (namespaces spec.namespace) λ ns.
        elim (Bool-cases (text_eq ns [])) [
          | inl e ↦ rw e (pure-Triple true)
          | inr e ↦ rw e (bind-Triple (visit_namespace-Triple _ ns) (λ _. pure-Triple false))
        ]

-- Whatever the server answers, `ObjectCreated` only lists, patches deployments that it was shown,
-- which had no policy yet, with the patch that adds the policy, and deletes pods that it was shown
-- without the sidecar; each in the namespace of the listing.
pub object_created-Since :
    (k : Kube) (r : Receiver) (h : History)
    → Since (Allowed k (annotate (policy r.spec)) false) h (object_created k (receiver r) h).1
unfolding object_created program
object_created-Since k r h =
    (Triple.run (visit_all-Triple k h _ (add_policy-Body k h (policy r.spec)) r.spec) h begun tt).0

-- Whatever the server answers, `ObjectDeleted` only lists, patches deployments that it was shown with
-- a policy, with the patch that takes the policy out, and deletes pods that it was shown with the
-- sidecar; each in the namespace of the listing.
pub object_deleted-Since :
    (k : Kube) (r : Receiver) (h : History)
    → Since (Allowed k unannotate true) h (object_deleted k (receiver r) h).1
unfolding object_deleted program
object_deleted-Since k r h =
    (Triple.run (visit_all-Triple k h _ (remove_policy-Body k h) r.spec) h begun tt).0
