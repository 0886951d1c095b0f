-- ===== src/Webhook/Mutation.antt =====
-- `mutationRequired` of `webhook/webhook.go`: whether a pod gets the sidecar.
pub mod Decision
pub mod OptIn
use kubernetes_cluster_monit.Keys.{annotation_key, injected_status_key, injected_status_value}
use kubernetes_cluster_monit.Kube.{Pod, Deployment, Event, Kube, list_deployments, list_pods}
use kubernetes_cluster_monit.Kube.Steady.{has_policy}
use kubernetes_cluster_monit.Prelude.{
  Bool, true, false, ◌||◌, Option, none, some, List, [], ◌∷◌, if◌then◌else◌,
}
use kubernetes_cluster_monit.Prelude.Dict.{Dict, get, entries}
use kubernetes_cluster_monit.Prelude.Program.{
  Prog, Reply, pure, exit, ◌>>=◌, ◌>>◌, return_on_error, deref, for_state,
}
use kubernetes_cluster_monit.Prelude.Text.{Text, codes, text_eq, to_lower}
use kubernetes_cluster_monit.Webhook.Patch.{annotations}

abbrev pub system_namespace : Text
system_namespace = codes "kube-system"

abbrev pub public_namespace : Text
public_namespace = codes "kube-public"

-- `ignoredNamespaces`, with the names that `metav1` declares
abbrev pub ignored_namespaces : List Text
ignored_namespaces = system_namespace ∷ public_namespace ∷ []

abbrev pub is_ignored : List Text → Text → Bool
is_ignored [] ns = false
is_ignored (i ∷ is) ns = text_eq ns i || is_ignored is ns

-- `case "y", "yes", "true", "on"`
unfoldable pub is_yes : Text → Bool
is_yes v =
    text_eq v (codes "y")
    || text_eq v (codes "yes")
    || text_eq v (codes "true")
    || text_eq v (codes "on")

unfoldable pub has_status : Option Dict → Bool
has_status ann = text_eq (to_lower (get injected_status_key (entries ann))) injected_status_value

unfoldable pub opts_in : Option Dict → Bool
opts_in ann = is_yes (to_lower (get annotation_key (entries ann)))

-- `for _, dpPod := range pods.Items`, with its `break`
unfoldable pub scan : Text → List Pod → Bool → Bool
scan name [] required = required
scan name (q ∷ qs) required = if text_eq q.name name then true else scan name qs required

module _ (k : Kube) where
  -- An error of the listing is a `continue`; otherwise the loop breaks once `required` is true.
  abbrev pub scan_reply : Text → Bool → Reply (List Pod) → Bool × Bool
  scan_reply name required reply = elim reply.error [
    | none ↦ (scan name reply.value required, scan name reply.value required)
    | some err ↦ (required, false)
  ]

  -- The body of the loop over the deployments.
  unfoldable pub visit_deployment : Text → Text → Deployment → Bool → Prog Event Bool (Bool × Bool)
  visit_deployment ns name dp required =
      if has_policy dp
      then (deref (k.as_selector dp.selector).value >>= λ selector.
          list_pods k ns selector >>= λ reply. pure (scan_reply name required reply))
      else pure (required, false)

  -- The body of the loop over the pods with the labels of the new one.
  unfoldable pub visit_pod : Text → Pod → Bool → Prog Event Bool (Bool × Bool)
  unfolding visit_deployment
  visit_pod ns p required = do
    reply ← list_deployments k ns []
    return_on_error reply.error required
    after ← for_state (visit_deployment ns p.name) reply.value required
    pure (after, after)

-- Without a client the first call panics.
unfoldable pub mutation_required : Option Kube → List Text → Pod → Prog Event Bool Bool
unfolding visit_pod
mutation_required client ignored pod =
    if is_ignored ignored pod.namespace
    then exit false
    else if has_status pod.annotations
    then exit false
    else (deref client >>= λ k. list_pods k pod.namespace (k.set_selector pod.labels) >>= λ reply.
        for_state (visit_pod k pod.namespace) reply.value (opts_in pod.annotations))
