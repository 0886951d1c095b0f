-- ===== src/Receiver/Copies.antt =====
-- `DeepCopy` of the custom resource, on a heap:
-- `CustomResource/src/pkg/apis/myproject/v1alpha1/zz_generated.deepcopy.go`. An address is the number
-- of a cell, a nil pointer, slice or map is `none`, and a slice is the address of its elements. An
-- array of pointers is allocated behind what they point to, which Go does first; no program can tell.
pub mod Later
pub mod Values
pub mod Isolated
pub mod Lists
use kubernetes_cluster_monit.Prelude.{ℕ, zero, suc, Option, none, some, List, [], ◌∷◌, ◌++◌, length}
use kubernetes_cluster_monit.Prelude.Dict.{Dict}
use kubernetes_cluster_monit.Prelude.Int.{ℤ}
use kubernetes_cluster_monit.Prelude.Text.{Text}
use kubernetes_cluster_monit.Receiver.{Dest}

pub record ExpressionRef : Type 0 where
  pub key : Text
  pub operator : Text
  pub values : Option ℕ

pub record SelectorRef : Type 0 where
  pub expression : Option ℕ
  pub labels : Option ℕ

pub record SpecRef : Type 0 where
  pub namespace : Option ℕ
  pub label_selector : SelectorRef
  pub group_label : Option ℕ
  pub log_frequency : ℤ
  pub action : Text
  pub destination : Option ℕ

-- The metadata is copied by a library; of it, the texts that `Receiver` has.
pub record ReceiverRef : Type 0 where
  pub name : Text
  pub namespace : Text
  pub resource_version : Text
  pub spec : SpecRef

-- `ReceiverList`, with the text of its metadata that says how fresh the list is.
pub record ListRef : Type 0 where
  pub list_version : Text
  pub items : Option ℕ

pub data Cell : Type 0 where
  string_array : List Text → Cell
  dest_array : List Dest → Cell
  label_cell : Dict → Cell
  expression_cell : ExpressionRef → Cell
  pointer_array : List (Option ℕ) → Cell
  receiver_cell : ReceiverRef → Cell
  receiver_array : List ReceiverRef → Cell
  list_cell : ListRef → Cell
  dest_cell : Dest → Cell
  selector_cell : SelectorRef → Cell
  spec_cell : SpecRef → Cell

abbrev pub Heap : Type 0
Heap = List Cell

unfoldable pub cell_at : Heap → ℕ → Option Cell
cell_at [] a = none
cell_at (c ∷ h) zero = some c
cell_at (c ∷ h) (suc a) = cell_at h a

-- `new` and `make`
abbrev pub allocate : Cell → Heap → Option ℕ × Heap
allocate c h = (some (length h), h ++ c ∷ [])

-- The cell behind a pointer. In a Go program it has the type of the pointer; where it has another one
-- the copies below are nil.
abbrev pub target : Option ℕ → Heap → Option Cell
target none h = none
target (some a) h = cell_at h a

-- A slice of values is made anew and filled by `copy`.
unfoldable pub copy_strings : Option ℕ → Heap → Option ℕ × Heap
copy_strings p h = elim (target p h) [
  | some (string_array xs) ↦ allocate (string_array xs) h
  | _ ↦ (none, h)
]

unfoldable pub copy_dests : Option ℕ → Heap → Option ℕ × Heap
copy_dests p h = elim (target p h) [
  | some (dest_array xs) ↦ allocate (dest_array xs) h
  | _ ↦ (none, h)
]

unfoldable pub copy_labels : Option ℕ → Heap → Option ℕ × Heap
copy_labels p h = elim (target p h) [
  | some (label_cell m) ↦ allocate (label_cell m) h
  | _ ↦ (none, h)
]

-- `DeepCopyInto` of the structures
unfoldable pub copy_expression : ExpressionRef → Heap → ExpressionRef × Heap
unfolding copy_strings
copy_expression e h =
    let (values, h') = copy_strings e.values h in (record e { values = values }, h')

-- The body of the loop over the expressions, with `new`.
unfoldable pub copy_pointer : Option ℕ → Heap → Option ℕ × Heap
unfolding copy_expression
copy_pointer p h = elim (target p h) [
  | some (expression_cell e) ↦
      let (copied, h') = copy_expression e h in allocate (expression_cell copied) h'
  | _ ↦ (none, h)
]

unfoldable pub copy_pointers : List (Option ℕ) → Heap → List (Option ℕ) × Heap
unfolding copy_pointer
copy_pointers [] h = ([], h)
copy_pointers (p ∷ ps) h =
    let (q, h') = copy_pointer p h in let (qs, h'') = copy_pointers ps h' in (q ∷ qs, h'')

unfoldable pub copy_expressions : Option ℕ → Heap → Option ℕ × Heap
unfolding copy_pointers
copy_expressions p h = elim (target p h) [
  | some (pointer_array ps) ↦ let (qs, h') = copy_pointers ps h in allocate (pointer_array qs) h'
  | _ ↦ (none, h)
]

unfoldable pub copy_selector : SelectorRef → Heap → SelectorRef × Heap
unfolding copy_expressions copy_labels
copy_selector s h =
    let (expression, h') = copy_expressions s.expression h in
    let (labels, h'') = copy_labels s.labels h' in
    (record { expression = expression; labels = labels }, h'')

unfoldable pub copy_spec : SpecRef → Heap → SpecRef × Heap
unfolding copy_strings copy_selector copy_dests
copy_spec s h =
    let (namespace, h') = copy_strings s.namespace h in
    let (label_selector, h'') = copy_selector s.label_selector h' in
    let (group_label, h3) = copy_strings s.group_label h'' in
    let (destination, h4) = copy_dests s.destination h3 in
    (
      record s {
        namespace = namespace;
        label_selector = label_selector;
        group_label = group_label;
        destination = destination;
      },
      h4,
    )

unfoldable pub copy_receiver : ReceiverRef → Heap → ReceiverRef × Heap
unfolding copy_spec
copy_receiver r h = let (spec, h') = copy_spec r.spec h in (record r { spec = spec }, h')

-- `DeepCopy` of a `Receiver`
unfoldable pub deep_copy : Option ℕ → Heap → Option ℕ × Heap
unfolding copy_receiver
deep_copy p h = elim (target p h) [
  | some (receiver_cell r) ↦
      let (copied, h') = copy_receiver r h in allocate (receiver_cell copied) h'
  | _ ↦ (none, h)
]
