-- ===== src/Webhook/Patch.antt =====
-- The JSON patch that `createPatch` of `webhook/webhook.go` builds: `addContainer`, `addVolume`,
-- `updateAnnotation`.
pub mod Apply
use kubernetes_cluster_monit.Kube.{Container, Volume, Pod}
use kubernetes_cluster_monit.Prelude.{
  Bool, false, Option, some, List, [], ◌∷◌, ◌++◌, if◌then◌else◌, is_empty,
}
use kubernetes_cluster_monit.Prelude.Dict.{Dict, get, entries}
use kubernetes_cluster_monit.Prelude.Text.{Text, codes}

-- The `Value` of an operation. `addContainer` and `addVolume` give one item or a list with one item.
pub data Value : Type 0 where
  container : Container → Value
  containers : List Container → Value
  volume : Volume → Value
  volumes : List Volume → Value
  text : Text → Value
  annotations : Dict → Value

pub data Op : Type 0 where
  add : Op
  replace : Op

pub record PatchOperation : Type 0 where
  pub op : Op
  pub path : Text
  pub value : Value

-- `Config`
pub record Config : Type 0 where
  pub containers : List Container
  pub volumes : List Volume

-- The loop that `addContainer` and `addVolume` share, with `first` and the patch made so far.
pub add_items :
    {A : Type 0} (one : A → Value) (listed : List A → Value)
    → Bool
    → Text
    → List A
    → List PatchOperation
    → List PatchOperation
add_items one listed first base_path [] patch = patch
add_items one listed first base_path (item ∷ items) patch =
    let operation : PatchOperation = record {
      op = add;
      path = if first then base_path else base_path ++ b'/' ∷ b'-' ∷ [];
      value = if first then listed (item ∷ []) else one item;
    } in
    add_items one listed false base_path items (patch ++ operation ∷ [])

unfoldable pub add_container : List Container → List Container → Text → List PatchOperation
unfolding add_items
add_container target added base_path =
    add_items container containers (is_empty target) base_path added []

unfoldable pub add_volume : List Volume → List Volume → Text → List PatchOperation
unfolding add_items
add_volume target added base_path = add_items volume volumes (is_empty target) base_path added []

abbrev pub annotations_path : Text
annotations_path = codes "/metadata/annotations"

-- `range added`, with the variable `target`, which an `add` makes an empty map.
unfoldable pub update_annotation_from :
    Option Dict → Dict → List PatchOperation → List PatchOperation
update_annotation_from target [] patch = patch
update_annotation_from target ((key, value) ∷ added) patch =
    let missing = is_empty (get key (entries target)) in
    update_annotation_from (if missing then some [] else target) added (
      patch
      ++ (if missing
          then record { op = add; path = annotations_path; value = annotations ((key, value) ∷ []) }
          else record { op = replace; path = annotations_path ++ b'/' ∷ key; value = text value })
        ∷ [])

unfoldable pub update_annotation : Option Dict → Dict → List PatchOperation
unfolding update_annotation_from
update_annotation target added = update_annotation_from target added []

abbrev pub containers_path : Text
containers_path = codes "/spec/containers"

abbrev pub volumes_path : Text
volumes_path = codes "/spec/volumes"

-- `createPatch` up to `json.Marshal`
unfoldable pub patch_operations : Pod → Config → Dict → List PatchOperation
unfolding add_container add_volume update_annotation
patch_operations pod config added =
    add_container pod.containers config.containers containers_path
    ++ (add_volume pod.volumes config.volumes volumes_path
        ++ update_annotation pod.annotations added)
