-- ===== src/Webhook/Patch/Apply/Effect.antt =====
-- The effect of the webhook's patch on the pod for which it is made.
use mathlib.Core.Option
use kubernetes_cluster_monit.Prelude.Text.{replace as replace_text}
use kubernetes_cluster_monit.Keys.{injected_status_key}
use kubernetes_cluster_monit.Kube.{Pod}
use kubernetes_cluster_monit.Prelude.{
  ◌≡◌, refl, sym, ap, ◌∙◌, inl, inr, Bool, true, false, some, List, [], ◌∷◌, ◌++◌, append-nil,
  append_assoc, Option-cases, is_empty,
}
use kubernetes_cluster_monit.Prelude.Text.{Text, text_eq, starts_with, split}
use kubernetes_cluster_monit.Webhook.Patch.{
  Value, container, containers, volume, volumes, add, PatchOperation, add_items, annotations_path,
  containers_path, volumes_path,
}
use kubernetes_cluster_monit.Webhook.Patch.Apply.{
  all_containers, end_of_containers, all_volumes, end_of_volumes, all_annotations, elsewhere,
  tokens, target_of, apply_at, apply_all,
}

pub apply_all-append :
    (xs ys : List PatchOperation) (pod : Pod)
    → apply_all (xs ++ ys) pod ≡ Option.bind (apply_all xs pod) (apply_all ys)
unfolding apply_all Option.bind
apply_all-append [] ys pod = refl
apply_all-append (o ∷ os) ys pod =
    elim (Option-cases (apply_at o.op (target_of (tokens o.path)) o.value pod)) [
      | inl e ↦ rw e
      | inr (p, e) ↦ rw e (apply_all-append os ys p)
    ]

-- The operations that add `items`, the first of them as a list if there is none yet.
abbrev item_operations :
    {A : Type 0} (one : A → Value) (listed : List A → Value)
    → Bool
    → Text
    → List A
    → List PatchOperation
item_operations one listed first path [] = []
item_operations one listed true path (x ∷ xs) =
    record { op = add; path = path; value = listed (x ∷ []) }
    ∷ item_operations one listed false path xs
item_operations one listed false path (x ∷ xs) =
    record { op = add; path = path ++ b'/' ∷ b'-' ∷ []; value = one x }
    ∷ item_operations one listed false path xs

add_items_lem :
    {A : Type 0} (one : A → Value) (listed : List A → Value) (path : Text) (xs : List A)
    (first : Bool) (patch : List PatchOperation)
    → add_items one listed first path xs patch ≡ patch ++ item_operations one listed first path xs
unfolding add_items
add_items_lem one listed path [] first patch = sym (append-nil patch)
add_items_lem one listed path (x ∷ xs) true patch =
    add_items_lem one listed path xs false _ ∙ append_assoc patch _ _
add_items_lem one listed path (x ∷ xs) false patch =
    add_items_lem one listed path xs false _ ∙ append_assoc patch _ _

-- The targets of the pointers that the webhook writes.
pub pointers :
    (target_of (tokens containers_path) ≡ all_containers)
    × (target_of (tokens (containers_path ++ b'/' ∷ b'-' ∷ [])) ≡ end_of_containers)
    × (target_of (tokens volumes_path) ≡ all_volumes)
    × (target_of (tokens (volumes_path ++ b'/' ∷ b'-' ∷ [])) ≡ end_of_volumes)
    × (target_of (tokens annotations_path) ≡ all_annotations)
    × (target_of (tokens (annotations_path ++ b'/' ∷ injected_status_key)) ≡ elsewhere)
unfolding target_of text_eq split replace_text starts_with injected_status_key
pointers = (refl, refl, refl, refl, refl, refl)

-- A list of a pod, with the operations that set it and append to it.
pub record IsList {A : Type 0} (one : A → Value) (listed : List A → Value) (path : Text)
    (read : Pod → List A) (write : Pod → List A → Pod) : Type 0 where
  read-write : (pod : Pod) (l : List A) → read (write pod l) ≡ l
  write-write : (pod : Pod) (l l' : List A) → write (write pod l) l' ≡ write pod l'
  write-read : (pod : Pod) → write pod (read pod) ≡ pod
  sets :
      (pod : Pod) (l : List A)
      → apply_at add (target_of (tokens path)) (listed l) pod ≡ some (write pod l)
  appends :
      (pod : Pod) (y x : A) (ys : List A)
      → read pod ≡ y ∷ ys
      → apply_at add (target_of (tokens (path ++ b'/' ∷ b'-' ∷ []))) (one x) pod
        ≡ some (write pod ((y ∷ ys) ++ x ∷ []))

pub containers-IsList :
    IsList container containers containers_path
      (λ pod. pod.containers)
      (λ pod l. record pod { containers = l })
unfolding apply_at
containers-IsList = record {
  read-write = λ pod l. refl;
  write-write = λ pod l l'. refl;
  write-read = λ pod. refl;
  sets = λ pod l. rw pointers.0;
  appends = λ pod y x ys e. rw (pointers.1, e);
}

pub volumes-IsList :
    IsList volume volumes volumes_path (λ pod. pod.volumes) (λ pod l. record pod { volumes = l })
unfolding apply_at
volumes-IsList = record {
  read-write = λ pod l. refl;
  write-write = λ pod l l'. refl;
  write-read = λ pod. refl;
  sets = λ pod l. rw pointers.2;
  appends = λ pod y x ys e. rw (pointers.3, e);
}

module _ {A : Type 0} {one : A → Value} {listed : List A → Value} {path : Text}
    {read : Pod → List A} {write : Pod → List A → Pod}
    (laws : IsList one listed path read write) where
  apply-appends :
      (xs : List A) (pod : Pod) (y : A) (ys : List A)
      → read pod ≡ y ∷ ys
      → apply_all (item_operations one listed false path xs) pod ≡ some (write pod ((y ∷ ys) ++ xs))
  unfolding apply_all Option.bind
  apply-appends [] pod y ys e =
      ap some (sym (laws.write-read pod) ∙ ap (write pod) (e ∙ sym (append-nil (y ∷ ys))))
  apply-appends (x ∷ xs) pod y ys e = rw (laws.appends pod y x ys e) (
      apply-appends xs _ y (ys ++ x ∷ []) (laws.read-write pod _)
      ∙ ap some (laws.write-write pod _ _)
      ∙ ap (λ l. some (write pod (y ∷ l))) (append_assoc ys (x ∷ []) xs))

  apply-item_operations :
      (target xs : List A) (pod : Pod)
      → read pod ≡ target
      → apply_all (item_operations one listed (is_empty target) path xs) pod
        ≡ some (write pod (target ++ xs))
  unfolding apply_all Option.bind
  apply-item_operations [] [] pod e = ap some (sym (laws.write-read pod) ∙ ap (write pod) e)
  apply-item_operations [] (x ∷ xs) pod e =
      rw (laws.sets pod (x ∷ []))
        (apply-appends xs _ x [] (laws.read-write pod _) ∙ ap some (laws.write-write pod _ _))
  apply-item_operations (y ∷ ys) xs pod e = apply-appends xs pod y ys e

  pub apply-add_items :
      (xs : List A) (pod : Pod)
      → apply_all (add_items one listed (is_empty (read pod)) path xs []) pod
        ≡ some (write pod (read pod ++ xs))
  apply-add_items xs pod =
      ap (λ os. apply_all os pod) (add_items_lem one listed path xs (is_empty (read pod)) [])
      ∙ apply-item_operations (read pod) xs pod refl
