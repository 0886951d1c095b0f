-- ===== src/Webhook/Patch/Apply/Injected.antt =====
-- A pod after the injection.
use mathlib.Core.Option
use kubernetes_cluster_monit.Keys.{injected_status_key, injected_status_value}
use kubernetes_cluster_monit.Kube.{Pod}
use kubernetes_cluster_monit.Prelude.{◌≡◌, ◌∙◌, true, false, none, some, [], ◌∷◌, ◌++◌, is_empty}
use kubernetes_cluster_monit.Prelude.Dict.{Dict, get, entries}
use kubernetes_cluster_monit.Webhook.Patch.{
  Config, add_container, add_volume, update_annotation, containers_path, volumes_path,
  patch_operations,
}
use kubernetes_cluster_monit.Webhook.Patch.Apply.{apply_at, apply_all}
use kubernetes_cluster_monit.Webhook.Patch.Apply.Effect.{
  apply_all-append, pointers, containers-IsList, volumes-IsList, apply-add_items,
}

-- What `mutate` adds to the annotations.
abbrev pub status_annotation : Dict
status_annotation = (injected_status_key, injected_status_value) ∷ []

module _ (pod : Pod) (config : Config) where
  abbrev with_sidecar : Pod
  with_sidecar = record pod {
    containers = pod.containers ++ config.containers;
    volumes = pod.volumes ++ config.volumes;
  }

  apply-patch_operations :
      apply_all (patch_operations pod config status_annotation) pod
      ≡ apply_all (update_annotation pod.annotations status_annotation) with_sidecar
  unfolding patch_operations add_container add_volume Option.bind
  apply-patch_operations =
      apply_all-append (add_container pod.containers config.containers containers_path) _ pod
      ∙ rw (apply-add_items containers-IsList config.containers pod) (
          apply_all-append (add_volume pod.volumes config.volumes volumes_path) _ _
          ∙ rw (
              apply-add_items volumes-IsList config.volumes
                (record pod { containers = pod.containers ++ config.containers })))

  -- Where the status annotation is missing or empty, the API server accepts the patch. The pod then has
  -- the sidecar's containers and volumes behind its own, and the status as its only annotation: all
  -- other annotations are lost.
  pub apply-missing_status :
      is_empty (get injected_status_key (entries pod.annotations)) ≡ true
      → apply_all (patch_operations pod config status_annotation) pod
        ≡ some (record pod {
          containers = pod.containers ++ config.containers;
          volumes = pod.volumes ++ config.volumes;
          annotations = some status_annotation;
        })
  apply-missing_status e =
      apply-patch_operations
      ∙ unfold update_annotation apply_all apply_at Option.bind in rw e (rw pointers.4)

  -- Where the pod has another status, the patch's pointer takes the slash in the annotation's key for a
  -- separator, and the API server refuses the whole patch.
  pub apply-other_status :
      is_empty (get injected_status_key (entries pod.annotations)) ≡ false
      → apply_all (patch_operations pod config status_annotation) pod ≡ none
  apply-other_status e =
      apply-patch_operations
      ∙ unfold update_annotation apply_all apply_at Option.bind in rw e (rw pointers.5)
