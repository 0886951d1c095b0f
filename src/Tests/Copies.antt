-- ===== src/Tests/Copies.antt =====
-- The theorem on deep copies, for a heap with one custom resource.
use kubernetes_cluster_monit.Prelude.{refl, none, some, [], ◌∷◌}
use kubernetes_cluster_monit.Prelude.Int.{pos}
use kubernetes_cluster_monit.Prelude.Text.{codes}
use kubernetes_cluster_monit.Receiver.{Receiver}
use kubernetes_cluster_monit.Receiver.Copies.{
  ReceiverRef, string_array, label_cell, expression_cell, pointer_array, receiver_cell,
  receiver_array, list_cell, Heap, cell_at, deep_copy,
}
use kubernetes_cluster_monit.Receiver.Copies.Isolated.{KeptBelow, deep_copy-isolated}
use kubernetes_cluster_monit.Receiver.Copies.Later.{Kept}
use kubernetes_cluster_monit.Receiver.Copies.Lists.{deep_copy_list_object}
use kubernetes_cluster_monit.Receiver.Copies.Lists.Isolated.{
  IsReceiverList, IsListObject, deep_copy_list_object-isolated,
}
use kubernetes_cluster_monit.Receiver.Copies.Values.{IsStruct, IsReceiver}
use kubernetes_cluster_monit.Tests.Fixtures.{web, web_labels}

abbrev shared_heap : Heap
shared_heap =
    string_array (codes "a" ∷ [])
    ∷ expression_cell (record { key = codes "tier"; operator = codes "in"; values = some 0 })
    ∷ pointer_array (some 1 ∷ [])
    ∷ label_cell web_labels
    ∷ receiver_cell (record {
      name = web;
      namespace = codes "default";
      resource_version = codes "1";
      spec = record {
        namespace = none;
        label_selector = record { expression = some 2; labels = some 3 };
        group_label = some 0;
        log_frequency = pos 5;
        action = codes "quarantine";
        destination = none;
      };
    })
    ∷ []

abbrev shared_receiver : Receiver
shared_receiver = record {
  name = web;
  namespace = codes "default";
  resource_version = codes "1";
  spec = record {
    namespace = [];
    label_selector = record {
      expression =
          record { key = codes "tier"; operator = codes "in"; values = codes "a" ∷ [] } ∷ [];
      labels = web_labels;
    };
    group_label = codes "a" ∷ [];
    log_frequency = pos 5;
    action = codes "quarantine";
    destination = [];
  };
}

shared_heap-IsReceiver : IsReceiver shared_heap (some 4) shared_receiver
unfolding cell_at
shared_heap-IsReceiver = (
  _,
  refl,
  record {
    name_is = refl;
    namespace_is = refl;
    resource_version_is = refl;
    spec_is = record {
      namespace_is = refl;
      selector_is = record {
        expressions_are = (
          _,
          refl,
          ((_, refl, record { key_is = refl; operator_is = refl; values_are = refl }), tt),
        );
        labels_are = refl;
      };
      group_label_is = refl;
      log_frequency_is = refl;
      action_is = refl;
      destination_is = refl;
    };
  },
)

deep_copy-isolated_example :
    ((later : Heap)
      → Kept 5 (deep_copy (some 4) shared_heap).1 later
      → IsReceiver later (deep_copy (some 4) shared_heap).0 shared_receiver)
    × ((later : Heap)
        → KeptBelow 5 (deep_copy (some 4) shared_heap).1 later
        → IsReceiver later (some 4) shared_receiver)
deep_copy-isolated_example =
    deep_copy-isolated (some 4) shared_heap shared_receiver shared_heap-IsReceiver

-- Two custom resources that share their parts, in a list.
abbrev shared_struct : ReceiverRef
shared_struct = record {
  name = web;
  namespace = codes "default";
  resource_version = codes "1";
  spec = record {
    namespace = none;
    label_selector = record { expression = some 2; labels = some 3 };
    group_label = some 0;
    log_frequency = pos 5;
    action = codes "quarantine";
    destination = none;
  };
}

abbrev listed_heap : Heap
listed_heap =
    string_array (codes "a" ∷ [])
    ∷ expression_cell (record { key = codes "tier"; operator = codes "in"; values = some 0 })
    ∷ pointer_array (some 1 ∷ [])
    ∷ label_cell web_labels
    ∷ receiver_array (shared_struct ∷ shared_struct ∷ [])
    ∷ list_cell (record { list_version = codes "7"; items = some 4 })
    ∷ []

listed_heap-IsStruct : IsStruct listed_heap shared_struct shared_receiver
unfolding cell_at
listed_heap-IsStruct = record {
  name_is = refl;
  namespace_is = refl;
  resource_version_is = refl;
  spec_is = record {
    namespace_is = refl;
    selector_is = record {
      expressions_are = (
        _,
        refl,
        ((_, refl, record { key_is = refl; operator_is = refl; values_are = refl }), tt),
      );
      labels_are = refl;
    };
    group_label_is = refl;
    log_frequency_is = refl;
    action_is = refl;
    destination_is = refl;
  };
}

listed_heap-IsReceiverList :
    IsReceiverList listed_heap (some 5) (codes "7") (shared_receiver ∷ shared_receiver ∷ [])
unfolding cell_at
listed_heap-IsReceiverList =
    (_, refl, refl, (_, refl, (listed_heap-IsStruct, (listed_heap-IsStruct, tt))))

deep_copy_list_object-isolated_example :
    ((later : Heap)
      → Kept 6 (deep_copy_list_object (some 5) listed_heap).1 later
      → IsListObject later
          (deep_copy_list_object (some 5) listed_heap).0
          (codes "7")
          (shared_receiver ∷ shared_receiver ∷ []))
    × ((later : Heap)
        → KeptBelow 6 (deep_copy_list_object (some 5) listed_heap).1 later
        → IsReceiverList later (some 5) (codes "7") (shared_receiver ∷ shared_receiver ∷ []))
deep_copy_list_object-isolated_example =
    deep_copy_list_object-isolated (some 5) listed_heap (codes "7")
      (shared_receiver ∷ shared_receiver ∷ []) listed_heap-IsReceiverList
