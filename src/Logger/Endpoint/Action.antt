-- ===== src/Logger/Endpoint/Action.antt =====
-- `takeAction` of `logger/endpoint/endpoint.go`: quarantining the deployments that belong to a pod.
pub mod Targets
pub mod Audit
use kubernetes_cluster_monit.Controller.Selector.{is_comma}
use kubernetes_cluster_monit.Keys.{group_label_key, action_key}
use kubernetes_cluster_monit.Kube.{
  Pod, Deployment, Event, Kube, list_deployments, list_pods, get_deployment, update_deployment,
}
use kubernetes_cluster_monit.Prelude.{
  Bool, true, false, Option, none, some, List, [], ◌∷◌, ◌++◌, map, if◌then◌else◌,
}
use kubernetes_cluster_monit.Prelude.Dict.{Dict, lookup, get, entries}
use kubernetes_cluster_monit.Prelude.Program.{Prog, Reply, pure, ◌>>=◌, ◌>>◌, deref, for_state}
use kubernetes_cluster_monit.Prelude.Text.{Text, codes, text_eq, split, trim_right}
use kubernetes_cluster_monit.Receiver.Copies.{target}

-- The first pod with the name.
unfoldable pub find_pod : Text → List Pod → Option Pod
find_pod podname [] = none
find_pod podname (p ∷ ps) = if text_eq p.name podname then some p else find_pod podname ps

-- `--`, between the group labels
abbrev pub group_separator : Text
group_separator = codes "--"

-- The labels that decide: those of the policy, or all of the pod's, in the order of the map.
unfoldable pub target_labels : Text → Dict → List Text
target_labels grouplabel label_map =
    if text_eq grouplabel [] then map (λ l. l.0) label_map else split group_separator grouplabel

-- `for _, val := range labels`, for the labels that the pod has
unfoldable pub selector_onto : Dict → Text → List Text → Text
selector_onto label_map selector [] = selector
selector_onto label_map selector (val ∷ labels) = elim (lookup val label_map) [
  | none ↦ selector_onto label_map selector labels
  | some v ↦ selector_onto label_map (selector ++ (val ++ (b'=' ∷ (v ++ b',' ∷ [])))) labels
]

unfoldable pub target_selector : Dict → List Text → Text
unfolding selector_onto
target_selector label_map labels = trim_right is_comma (selector_onto label_map [] labels)

-- What the caller of `takeAction` gets: nothing is written, or the names, with status 201.
pub data Answer : Type 0 where
  unwritten : Answer
  created : List Text → Answer

abbrev pub quarantine_action : Text
quarantine_action = codes "quarantine"

-- The policy's action; the default is `quarantine`.
unfoldable pub action_of : Dict → Text
action_of ann =
    let action = get action_key ann in if text_eq action [] then quarantine_action else action

module _ (k : Kube) where
  -- The body of the loop over the target deployments; errors are only logged.
  unfoldable pub quarantine_target :
      Text → Deployment → List Text → Prog Event Answer (List Text × Bool)
  quarantine_target ns target resp = do
    found ← get_deployment k ns target.name
    updated ← update_deployment k ns (let dp = found.value in record dp { replicas = some 0 })
    pure (resp ++ target.name ∷ [], false)

  unfoldable pub quarantine : Text → Text → List Text → Prog Event Answer (List Text)
  unfolding quarantine_target
  quarantine ns selector resp = do
    targets ← list_deployments k ns selector
    for_state (quarantine_target ns) targets.value resp

  -- What is done for the deployment that the pod belongs to.
  unfoldable pub act : Deployment → Pod → List Text → Prog Event Answer (List Text)
  unfolding quarantine action_of target_selector target_labels
  act dp pod resp =
      let ann = entries dp.annotations in
      let labels = target_labels (get group_label_key ann) pod.labels in
      if text_eq (action_of ann) quarantine_action
      then quarantine pod.namespace (target_selector pod.labels labels) resp
      else pure resp

  -- An error of the listing is a `continue`; where the pod is found, the loop breaks.
  unfoldable pub visit_listed :
      Text → Deployment → Reply (List Pod) → List Text → Prog Event Answer (List Text × Bool)
  unfolding act find_pod
  visit_listed podname dp pods resp = elim pods.error [
    | some err ↦ pure (resp, false)
    | none ↦ elim (find_pod podname pods.value) [
      | none ↦ pure (resp, false)
      | some pod ↦ (act dp pod resp >>= λ after. pure (after, true))
    ]
  ]

  -- The body of the loop over the deployments.
  unfoldable pub visit_candidate :
      Text → Deployment → List Text → Prog Event Answer (List Text × Bool)
  unfolding visit_listed
  visit_candidate podname dp resp = do
    selector ← deref (k.as_selector dp.selector).value
    pods ← list_pods k [] selector
    visit_listed podname dp pods resp

  -- `takeAction` with a client, up to the names that it answers; an error of the listing is only
  -- logged.
  unfoldable pub take_action : Text → Prog Event Answer (List Text)
  unfolding visit_candidate
  take_action podname = do
    dps ← list_deployments k [] []
    for_state (visit_candidate podname) dps.value []
