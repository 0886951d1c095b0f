-- ===== src/Tests/Reconciles.antt =====
-- The controller's theorems on a server that keeps its deployment.
use mathlib.Core.List.Permᴰ
use kubernetes_cluster_monit.Controller.Handler.{receiver, object_created, object_deleted}
use kubernetes_cluster_monit.Controller.Handler.Reconciles.{Specified, object_created-Specified}
use kubernetes_cluster_monit.Controller.Handler.Reconciles.Again.{
  IsSpecifiedOnce, object_created-again,
}
use kubernetes_cluster_monit.Controller.Handler.Reconciles.Restores.{
  IsRestored, object_deleted-created,
}
use kubernetes_cluster_monit.Controller.Policy.{policy, annotate}
use kubernetes_cluster_monit.Controller.Selector.{labels_onto, retrieve_expression}
use kubernetes_cluster_monit.Controller.Selector.Reordered.{with_labels, IsReordering}
use kubernetes_cluster_monit.Kube.{Kube}
use kubernetes_cluster_monit.Kube.Cluster.{Deployed}
use kubernetes_cluster_monit.Prelude.{◌≡◌, refl, Bool, true, ◌&&◌, some, [], ◌∷◌, arith}
use kubernetes_cluster_monit.Prelude.Dict.{Dict}
use kubernetes_cluster_monit.Prelude.Program.{◌>>◌, Completes}
use kubernetes_cluster_monit.Prelude.Text.{codes, split, trim_right}
use kubernetes_cluster_monit.Receiver.{Receiver}
use kubernetes_cluster_monit.Tests.Cluster.{
  shop_labels, state, has_label, takes, keeper, keeper-IsObliging, keeper-IsCluster,
}
use kubernetes_cluster_monit.Tests.Fixtures.{web_receiver}

-- Annotations of which the policy changes nothing.
abbrev team_annotations : Dict
team_annotations = (codes "team", codes "shop") ∷ []

abbrev kept : Kube
kept = keeper (some team_annotations)

abbrev kept_state : Deployed
kept_state = state (some team_annotations)

object_created-Specified_example :
    Completes
      (object_created kept (receiver web_receiver))
      []
      (λ _. Specified kept_state takes (annotate (policy web_receiver.spec)) web_receiver.spec [])
object_created-Specified_example =
    object_created-Specified (keeper-IsObliging (some team_annotations))
      (keeper-IsCluster (some team_annotations)) web_receiver []

abbrev shop_receiver : Receiver
shop_receiver = with_labels shop_labels web_receiver

abbrev swapped_labels : Dict
swapped_labels = (codes "tier", codes "front") ∷ (codes "app", codes "web") ∷ []

and_swap : (a b : Bool) → (b && (a && true)) ≡ (a && (b && true))
and_swap a b = ground arith

-- The selector texts are `app=web,tier=front` and `tier=front,app=web`.
shop-IsReordering : IsReordering takes shop_receiver.spec.label_selector swapped_labels
unfolding retrieve_expression labels_onto trim_right split
shop-IsReordering = record {
  permuted = Permᴰ.swap refl refl;
  same_taken = λ labels.
      and_swap (has_label labels (codes "app=web")) (has_label labels (codes "tier=front"));
}

object_created-again_example :
    Completes
      (object_created kept (receiver shop_receiver)
        >> object_created kept (receiver (with_labels swapped_labels shop_receiver)))
      []
      (λ _. IsSpecifiedOnce kept_state takes shop_receiver [])
object_created-again_example =
    object_created-again (keeper-IsObliging (some team_annotations))
      (keeper-IsCluster (some team_annotations)) shop_receiver swapped_labels [] shop-IsReordering

object_deleted-created_example :
    Completes
      (object_created kept (receiver shop_receiver)
        >> object_deleted kept (receiver (with_labels swapped_labels shop_receiver)))
      []
      (λ _. IsRestored kept_state takes shop_receiver.spec [])
object_deleted-created_example =
    object_deleted-created (keeper-IsObliging (some team_annotations))
      (keeper-IsCluster (some team_annotations)) shop_receiver swapped_labels [] (refl, tt)
      shop-IsReordering
