-- ===== src/Webhook/Patch/Apply.antt =====
-- What an API server does with the patch: RFC 6902, for the members of a pod that the patch names.
pub mod Effect
pub mod Injected
use mathlib.Core.Option
use kubernetes_cluster_monit.Prelude.Text.{replace as replace_text}
use kubernetes_cluster_monit.Kube.{Pod}
use kubernetes_cluster_monit.Prelude.{
  ◌&&◌, Option, none, some, List, [], ◌∷◌, ◌++◌, map, if◌then◌else◌, drop,
}
use kubernetes_cluster_monit.Prelude.Dict.{lookup, insert, entries}
use kubernetes_cluster_monit.Prelude.Text.{Text, codes, text_eq, split}
use kubernetes_cluster_monit.Webhook.Patch.{
  Value, container, containers, volume, volumes, text, annotations, Op, add, replace,
  PatchOperation,
}

-- A member of a pod, as a JSON pointer leads to it.
pub data Target : Type 0 where
  all_containers end_of_containers : Target
  all_volumes end_of_volumes : Target
  all_annotations : Target
  annotation : Text → Target
  elsewhere : Target

-- The tokens of a pointer, `~1` read as `/` and `~0` as `~`; the first, empty one is dropped.
abbrev unescape : Text → Text
unescape t = replace_text (codes "~0") (codes "~") (replace_text (codes "~1") (codes "/") t)

abbrev pub tokens : Text → List Text
tokens path = map unescape (drop 1 (split (b'/' ∷ []) path))

unfoldable pub spec_target : Text → Target
spec_target name =
    if text_eq name (codes "containers")
    then all_containers
    else if text_eq name (codes "volumes")
    then all_volumes
    else elsewhere

unfoldable pub end_target : Target → Text → Target
end_target all_containers t = if text_eq t (b'-' ∷ []) then end_of_containers else elsewhere
end_target all_volumes t = if text_eq t (b'-' ∷ []) then end_of_volumes else elsewhere
end_target all_annotations t = annotation t
end_target _ t = elsewhere

unfoldable pub top_target : Text → Text → Target
unfolding spec_target
top_target a b =
    if text_eq a (codes "spec")
    then spec_target b
    else if text_eq a (codes "metadata") && text_eq b (codes "annotations")
    then all_annotations
    else elsewhere

unfoldable pub target_of : List Text → Target
unfolding top_target end_target
target_of (a ∷ b ∷ []) = top_target a b
target_of (a ∷ b ∷ c ∷ []) = end_target (top_target a b) c
target_of _ = elsewhere

abbrev append_to {ℓ} : {A : Type ℓ} → List A → A → Option (List A)
append_to [] x = none
append_to (y ∷ ys) x = some ((y ∷ ys) ++ x ∷ [])

-- An array that is not there cannot be appended to; a member that is there can be replaced.
unfoldable pub apply_at : Op → Target → Value → Pod → Option Pod
apply_at add all_containers (containers cs) pod = some (record pod { containers = cs })
apply_at add end_of_containers (container c) pod =
    Option.map (λ cs. record pod { containers = cs }) (append_to pod.containers c)
apply_at add all_volumes (volumes vs) pod = some (record pod { volumes = vs })
apply_at add end_of_volumes (volume v) pod =
    Option.map (λ vs. record pod { volumes = vs }) (append_to pod.volumes v)
apply_at add all_annotations (annotations m) pod = some (record pod { annotations = some m })
apply_at replace (annotation key) (text v) pod = elim (lookup key (entries pod.annotations)) [
  | none ↦ none
  | some old ↦ some (record pod { annotations = some (insert key v (entries pod.annotations)) })
]
apply_at op target value pod = none

unfoldable pub apply_all : List PatchOperation → Pod → Option Pod
unfolding target_of apply_at
apply_all [] pod = some pod
apply_all (o ∷ os) pod =
    Option.bind (apply_at o.op (target_of (tokens o.path)) o.value pod) (apply_all os)
