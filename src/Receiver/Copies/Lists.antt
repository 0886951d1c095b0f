-- ===== src/Receiver/Copies/Lists.antt =====
-- The copies of `zz_generated.deepcopy.go` that the generated client and its caches use: of a list of
-- custom resources, of an object of either type, and of the parts by themselves.
pub mod Isolated
use kubernetes_cluster_monit.Prelude.{ℕ, Option, none, some, List, [], ◌∷◌}
use kubernetes_cluster_monit.Receiver.Copies.{
  ReceiverRef, ListRef, expression_cell, receiver_array, list_cell, dest_cell, selector_cell,
  spec_cell, Heap, allocate, target, copy_expression, copy_selector, copy_spec, copy_receiver,
  deep_copy,
}

-- The loop over the items, with `DeepCopyInto` of each.
unfoldable pub copy_items : List ReceiverRef → Heap → List ReceiverRef × Heap
unfolding copy_receiver
copy_items [] h = ([], h)
copy_items (r ∷ rs) h =
    let (q, h') = copy_receiver r h in let (qs, h'') = copy_items rs h' in (q ∷ qs, h'')

unfoldable pub copy_item_array : Option ℕ → Heap → Option ℕ × Heap
unfolding copy_items
copy_item_array p h = elim (target p h) [
  | some (receiver_array rs) ↦ let (qs, h') = copy_items rs h in allocate (receiver_array qs) h'
  | _ ↦ (none, h)
]

-- `DeepCopyInto` of a `ReceiverList`
unfoldable pub copy_list : ListRef → Heap → ListRef × Heap
unfolding copy_item_array
copy_list l h = let (items, h') = copy_item_array l.items h in (record l { items = items }, h')

-- `DeepCopy` of a `ReceiverList`
unfoldable pub deep_copy_list : Option ℕ → Heap → Option ℕ × Heap
unfolding copy_list
deep_copy_list p h = elim (target p h) [
  | some (list_cell l) ↦ let (copied, h') = copy_list l h in allocate (list_cell copied) h'
  | _ ↦ (none, h)
]

-- `runtime.Object`: a nil interface, or a pointer with its type.
pub data RuntimeObject : Type 0 where
  nil_object : RuntimeObject
  receiver_object : Option ℕ → RuntimeObject
  list_object : Option ℕ → RuntimeObject

-- `if c := in.DeepCopy(); c != nil { return c }; return nil`
abbrev pub unless_nil : (Option ℕ → RuntimeObject) → Option ℕ → RuntimeObject
unless_nil object none = nil_object
unless_nil object (some a) = object (some a)

-- `DeepCopyObject` of the two types
unfoldable pub deep_copy_object : Option ℕ → Heap → RuntimeObject × Heap
unfolding deep_copy
deep_copy_object p h = let (c, h') = deep_copy p h in (unless_nil receiver_object c, h')

unfoldable pub deep_copy_list_object : Option ℕ → Heap → RuntimeObject × Heap
unfolding deep_copy_list
deep_copy_list_object p h = let (c, h') = deep_copy_list p h in (unless_nil list_object c, h')

-- `DeepCopy` of the parts
unfoldable pub deep_copy_dest : Option ℕ → Heap → Option ℕ × Heap
deep_copy_dest p h = elim (target p h) [
  | some (dest_cell d) ↦ allocate (dest_cell d) h
  | _ ↦ (none, h)
]

unfoldable pub deep_copy_expression : Option ℕ → Heap → Option ℕ × Heap
unfolding copy_expression
deep_copy_expression p h = elim (target p h) [
  | some (expression_cell e) ↦
      let (copied, h') = copy_expression e h in allocate (expression_cell copied) h'
  | _ ↦ (none, h)
]

unfoldable pub deep_copy_selector : Option ℕ → Heap → Option ℕ × Heap
unfolding copy_selector
deep_copy_selector p h = elim (target p h) [
  | some (selector_cell s) ↦
      let (copied, h') = copy_selector s h in allocate (selector_cell copied) h'
  | _ ↦ (none, h)
]

unfoldable pub deep_copy_spec : Option ℕ → Heap → Option ℕ × Heap
unfolding copy_spec
deep_copy_spec p h = elim (target p h) [
  | some (spec_cell s) ↦ let (copied, h') = copy_spec s h in allocate (spec_cell copied) h'
  | _ ↦ (none, h)
]
