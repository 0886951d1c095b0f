-- ===== src/Tests/Controller.antt =====
-- The controller's theorems on the small cluster.
use kubernetes_cluster_monit.Controller.Handler.{Object, receiver, object_created, object_deleted}
use kubernetes_cluster_monit.Controller.Handler.Allowed.{Allowed}
use kubernetes_cluster_monit.Controller.Handler.Audit.{object_created-Since, object_deleted-Since}
use kubernetes_cluster_monit.Controller.Handler.Stops.{
  until_unannotated, object_deleted-unannotated,
}
use kubernetes_cluster_monit.Controller.Policy.{Policy, policy, annotate, unannotate}
use kubernetes_cluster_monit.Controller.Selector.{retrieve_expression}
use kubernetes_cluster_monit.Controller.Selector.Joined.{retrieve_expression-join}
use kubernetes_cluster_monit.Controller.Worker.{Worker, requeue, on_add}
use kubernetes_cluster_monit.Controller.Worker.Retries.{added, here, step, requeue-Reach}
use kubernetes_cluster_monit.Kube.{Deployment, listed_deployments, Kube}
use kubernetes_cluster_monit.Prelude.{◌≡◌, refl, true, false, none, some, List, [], ◌∷◌}
use kubernetes_cluster_monit.Prelude.Dict.{lookup}
use kubernetes_cluster_monit.Prelude.Program.{Reply, Since}
use kubernetes_cluster_monit.Prelude.Text.{Text, codes, join}
use kubernetes_cluster_monit.Receiver.{PodSelector}
use kubernetes_cluster_monit.Tests.Fixtures.{
  web, web_labels, policy_annotations, deployment_with, reply_of, server, web_receiver,
}
use kubernetes_cluster_monit.Tests.Queue.{
  Queue, counting_queue, count-nil, counting_queue-CountsRequeues,
}

abbrev web_policy : Policy
web_policy = record {
  group_label = codes "app";
  action = codes "quarantine";
  log_frequency = codes "10";
}

abbrev web_selector : PodSelector
web_selector = record {
  expression =
      record { key = codes "tier"; operator = codes "in"; values = codes "a" ∷ codes "b" ∷ [] }
      ∷ [];
  labels = web_labels;
}

retrieve_expression-join_example : retrieve_expression web_selector ≡ codes "app=web,tier in (a,b)"
unfolding join
retrieve_expression-join_example =
    retrieve_expression-join web_selector ((codes "=we", b'b', refl, refl), tt)
      ((([], b'a', refl, refl), (([], b'b', refl, refl), tt)), tt)

object_created-Since_example :
    Since
      (Allowed (server none) (annotate (policy web_receiver.spec)) false)
      []
      (object_created (server none) (receiver web_receiver) []).1
object_created-Since_example = object_created-Since (server none) web_receiver []

object_deleted-Since_example :
    Since
      (Allowed (server (some policy_annotations)) unannotate true)
      []
      (object_deleted (server (some policy_annotations)) (receiver web_receiver) []).1
object_deleted-Since_example =
    object_deleted-Since (server (some policy_annotations)) web_receiver []

-- Between two deployments with the policy is one without annotations.
abbrev mixed_deployments : List Deployment
mixed_deployments =
    deployment_with (some policy_annotations)
    ∷ deployment_with none
    ∷ deployment_with (some policy_annotations)
    ∷ []

abbrev mixed_server : Kube
mixed_server = record (server none) { deployments = λ h ns selector. reply_of mixed_deployments }

object_deleted-unannotated_example :
    object_deleted mixed_server (receiver web_receiver) []
    ≡ until_unannotated mixed_server
        (codes "default")
        (deployment_with (some policy_annotations) ∷ [])
        (listed_deployments
            (codes "default")
            (retrieve_expression web_receiver.spec.label_selector)
            (reply_of mixed_deployments)
          ∷ [])
unfolding lookup
object_deleted-unannotated_example =
    object_deleted-unannotated mixed_server web_receiver (codes "default") [] []
      (deployment_with (some policy_annotations) ∷ []) (deployment_with none)
      (deployment_with (some policy_annotations) ∷ []) refl refl refl

abbrev empty_worker : Worker Queue
empty_worker = record { queue = ([], []); history = [] }

abbrev web_key : Object → Reply Text
web_key o = reply_of web

requeue-Reach_example :
    requeue counting_queue (some (codes "e")) ([], []) web ≡ (web ∷ [], web ∷ [])
unfolding on_add
requeue-Reach_example =
    requeue-Reach counting_queue-CountsRequeues (server none) web_key {w₀ = empty_worker}
      (step here (added (receiver web_receiver))) count-nil (codes "e") web
