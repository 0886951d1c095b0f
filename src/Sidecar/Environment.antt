-- ===== src/Sidecar/Environment.antt =====
-- `setEnvironment` of `sidecar/sidecar.go`: the policy of the pod's deployment goes to the
-- environment of the process, a map.
pub mod Origin
pub mod Total
pub mod Steady
use kubernetes_cluster_monit.Keys.{annotation_key, group_label_key, action_key, log_frequency_key}
use kubernetes_cluster_monit.Kube.{Pod, Deployment, Event, Kube, list_deployments, list_pods}
use kubernetes_cluster_monit.Prelude.{Bool, true, false, none, some, List, [], ◌∷◌, if◌then◌else◌}
use kubernetes_cluster_monit.Prelude.Dict.{Dict, lookup, insert, get, entries}
use kubernetes_cluster_monit.Prelude.Program.{Prog, Reply, pure, ◌>>=◌, ◌>>◌, deref, for_state}
use kubernetes_cluster_monit.Prelude.Text.{Text, text_eq}

-- `os.Setenv` with the three values of the policy; a missing annotation is the empty text.
unfoldable pub set_policy : Dict → Dict → Dict
set_policy ann env =
    insert log_frequency_key (get log_frequency_key ann) (
      insert group_label_key (get group_label_key ann) (insert action_key (get action_key ann) env))

-- The loop over the pods of a deployment, with its `break`.
unfoldable pub is_listed : Text → List Pod → Bool
is_listed podname [] = false
is_listed podname (p ∷ ps) = if text_eq p.name podname then true else is_listed podname ps

-- The outcome of one listing: an error is a `continue`, and the pod's own deployment a `break`.
unfoldable pub offer_listed : Pod → Dict → Dict → Reply (List Pod) → Dict × Bool
unfolding is_listed set_policy
offer_listed pod ann env reply = elim reply.error [
  | some err ↦ (env, false)
  | none ↦ if is_listed pod.name reply.value then (set_policy ann env, true) else (env, false)
]

module _ (k : Kube) {R : Type 0} where
  -- The body of the loop over the deployments.
  unfoldable pub offer : Pod → Deployment → Dict → Prog Event R (Dict × Bool)
  unfolding offer_listed
  offer pod dp env = elim (lookup annotation_key (entries dp.annotations)) [
    | none ↦ pure (env, false)
    | some v ↦
        (deref (k.as_selector dp.selector).value >>= λ selector.
        list_pods k pod.namespace selector >>= λ reply.
        pure (offer_listed pod (entries dp.annotations) env reply))
  ]

  -- An error of the listing is only logged.
  unfoldable pub set_environment : Pod → Dict → Prog Event R Dict
  unfolding offer
  set_environment pod env = do
    dps ← list_deployments k pod.namespace []
    for_state (offer pod) dps.value env
