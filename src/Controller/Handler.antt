-- ===== src/Controller/Handler.antt =====
-- `TestHandler` of `CustomResource/handler.go`: what the controller does when a policy appears and
-- when it is deleted. Logging is left out.
pub mod Allowed
mod Patches
pub mod Audit
pub mod Stops
pub mod Covered
pub mod Complete
pub mod Effect
pub mod Reconciles
use kubernetes_cluster_monit.Controller.Policy.{namespaces, Policy, policy, annotate, unannotate}
use kubernetes_cluster_monit.Controller.Selector.{retrieve_expression}
use kubernetes_cluster_monit.Keys.{injected_status_key, injected_status_value}
use kubernetes_cluster_monit.Kube.{
  Pod, Deployment, Event, Kube, list_deployments, list_pods, patch_deployment, delete_pod,
}
use kubernetes_cluster_monit.Prelude.{
  Bool, true, false, Option, none, some, List, [], if◌then◌else◌,
}
use kubernetes_cluster_monit.Prelude.Dict.{Dict, get, entries}
use kubernetes_cluster_monit.Prelude.Program.{
  Prog, pure, exit, ◌>>=◌, ◌>>◌, return_on_error, check, deref, for_each, for_break,
}
use kubernetes_cluster_monit.Prelude.Text.{Text, text_eq}
use kubernetes_cluster_monit.Receiver.{ReceiverSpec, Receiver}

-- The object of an event: a policy, or the tombstone that an informer hands over when it missed the
-- deletion itself.
pub data Object : Type 0 where
  receiver : Receiver → Object
  tombstone : (key : Text) → Object

-- The type assertion `obj.(*v1alpha1.Receiver)`, which panics.
abbrev pub as_receiver : Object → Option Receiver
as_receiver (receiver r) = some r
as_receiver (tombstone key) = none

module _ (k : Kube) where
  -- From `json.Marshal(dpCopy)` after the change to the check of the patched deployment.
  unfoldable pub push_patch : Text → Text → Deployment → Prog Event (Unit {0}) (Unit {0})
  push_patch ns old dp = do
    new ← check (k.marshal dp) tt
    patch ← check (k.create_patch old new) tt
    bytes ← check (k.marshal_patch patch) tt
    patched ← patch_deployment k ns dp.name bytes
    final ← check patched tt
    shown ← check (k.marshal_indent final) tt
    pure tt

  -- The pods of a deployment; an error of the list call is only logged.
  abbrev pub pods_of : Text → Deployment → Prog Event (Unit {0}) (List Pod)
  pods_of ns dp = do
    selector ← deref (k.as_selector dp.selector).value
    reply ← list_pods k ns selector
    pure reply.value

  abbrev pub is_injected : Pod → Bool
  is_injected pod =
      text_eq (get injected_status_key (entries pod.annotations)) injected_status_value

  -- `podClient.Delete` with its check
  abbrev pub restart : Text → Pod → Prog Event (Unit {0}) (Unit {0})
  restart ns pod = do err ← delete_pod k ns pod.name; return_on_error err tt

  unfoldable pub restart_missing : Text → Pod → Prog Event (Unit {0}) (Unit {0})
  restart_missing ns pod = if is_injected pod then pure tt else restart ns pod

  unfoldable pub restart_injected : Text → Pod → Prog Event (Unit {0}) (Unit {0})
  restart_injected ns pod = if is_injected pod then restart ns pod else pure tt

  -- A deployment gets new annotations, and its pods are restarted.
  unfoldable pub carry_out :
      (Text → Pod → Prog Event (Unit {0}) (Unit {0}))
      → Text
      → Text
      → Deployment
      → Prog Event (Unit {0}) (Unit {0})
  unfolding push_patch
  carry_out each ns old dp = do push_patch ns old dp; pods ← pods_of ns dp; for_each (each ns) pods

  abbrev with_annotations : Deployment → Dict → Deployment
  with_annotations dp m = record dp { annotations = some m }

  -- The body of the loop over the deployments in `ObjectCreated`.
  unfoldable pub add_policy : Policy → Text → Deployment → Prog Event (Unit {0}) (Unit {0})
  unfolding carry_out
  add_policy p ns dp = do
    old ← check (k.marshal dp) tt
    elim (annotate p dp.annotations) [
      | none ↦ pure tt
      | some m ↦ carry_out restart_missing ns old (with_annotations dp m)
    ]

  -- The body of the loop over the deployments in `ObjectDeleted`: without the annotation it returns.
  unfoldable pub remove_policy : Text → Deployment → Prog Event (Unit {0}) (Unit {0})
  unfolding carry_out
  remove_policy ns dp = do
    old ← check (k.marshal dp) tt
    elim (unannotate dp.annotations) [
      | none ↦ exit tt
      | some m ↦ carry_out restart_injected ns old (with_annotations dp m)
    ]

  -- The body of the loop over the namespaces.
  unfoldable pub visit_namespace :
      (Text → Deployment → Prog Event (Unit {0}) (Unit {0}))
      → Text
      → Text
      → Prog Event (Unit {0}) (Unit {0})
  visit_namespace each expression ns = do
    reply ← list_deployments k ns expression
    dps ← check reply tt
    for_each (each ns) dps

  unfoldable pub visit_all :
      (Text → Deployment → Prog Event (Unit {0}) (Unit {0}))
      → ReceiverSpec
      → Prog Event (Unit {0}) (Unit {0})
  unfolding visit_namespace
  visit_all each spec =
      for_break
        (λ ns.
          if text_eq ns []
          then pure true
          else visit_namespace each (retrieve_expression spec.label_selector) ns >> pure false)
        (namespaces spec.namespace)

  unfoldable pub object_created : Object → Prog Event (Unit {0}) (Unit {0})
  unfolding visit_all add_policy
  object_created obj = do
    rcvr ← deref (as_receiver obj)
    visit_all (add_policy (policy rcvr.spec)) rcvr.spec

  unfoldable pub object_deleted : Object → Prog Event (Unit {0}) (Unit {0})
  unfolding visit_all remove_policy
  object_deleted obj = do rcvr ← deref (as_receiver obj); visit_all remove_policy rcvr.spec

-- `ObjectUpdated` only logs.
unfoldable pub object_updated : Object → Object → Prog Event (Unit {0}) (Unit {0})
object_updated old new = pure tt
