-- ===== src/Receiver/Copies/Values.antt =====
-- The values that structures on a heap stand for.
use kubernetes_cluster_monit.Prelude.{ℕ, ◌≡◌, Option, none, some, List, [], ◌∷◌, arith}
use kubernetes_cluster_monit.Prelude.Text.{Text}
use kubernetes_cluster_monit.Receiver.{ExpressionStruct, PodSelector, ReceiverSpec, Receiver}
use kubernetes_cluster_monit.Receiver.Copies.{
  ExpressionRef, SelectorRef, SpecRef, ReceiverRef, Cell, string_array, dest_array, label_cell,
  expression_cell, pointer_array, receiver_cell, Heap, cell_at,
}
use kubernetes_cluster_monit.Receiver.Copies.Later.{Kept}

-- The slice or map at a reference; `nil` is the empty one.
abbrev pub Points : {A : Type 0} → (A → Cell) → A → Heap → Option ℕ → A → Type 0
Points cell empty h none x = x ≡ empty
Points cell empty h (some a) x = cell_at h a ≡ some (cell x)

pub Points-Kept :
    {A : Type 0} (cell : A → Cell) (empty : A) (h h' : Heap) (p : Option ℕ) (x : A)
    → Kept 0 h h'
    → Points cell empty h p x
    → Points cell empty h' p x
Points-Kept cell empty h h' none x k e = e
Points-Kept cell empty h h' (some a) x k e = k a (cell x) (omega arith) e

abbrev pub IsStrings : Heap → Option ℕ → List Text → Type 0
IsStrings = Points string_array []

-- The values that structures stand for on a heap.
pub record IsExpression (h : Heap) (r : ExpressionRef) (e : ExpressionStruct) : Type 0 where
  pub key_is : r.key ≡ e.key
  pub operator_is : r.operator ≡ e.operator
  pub values_are : IsStrings h r.values e.values

abbrev pub IsElement : Heap → Option ℕ → ExpressionStruct → Type 0
IsElement h none e = ⊥
IsElement h (some a) e =
    (r : ExpressionRef) × (cell_at h a ≡ some (expression_cell r)) × IsExpression h r e

abbrev pub AreElements : Heap → List (Option ℕ) → List ExpressionStruct → Type 0
AreElements h [] [] = Unit
AreElements h [] (e ∷ es) = ⊥
AreElements h (p ∷ ps) [] = ⊥
AreElements h (p ∷ ps) (e ∷ es) = IsElement h p e × AreElements h ps es

abbrev pub AreExpressions : Heap → Option ℕ → List ExpressionStruct → Type 0
AreExpressions h none es = es ≡ []
AreExpressions h (some a) es =
    (ps : List (Option ℕ)) × (cell_at h a ≡ some (pointer_array ps)) × AreElements h ps es

pub IsExpression-Kept :
    (h h' : Heap) (r : ExpressionRef) (e : ExpressionStruct)
    → Kept 0 h h'
    → IsExpression h r e
    → IsExpression h' r e
IsExpression-Kept h h' r e k i = record {
  key_is = i.key_is;
  operator_is = i.operator_is;
  values_are = Points-Kept string_array [] h h' r.values e.values k i.values_are;
}

pub AreElements-Kept :
    (h h' : Heap) (ps : List (Option ℕ)) (es : List ExpressionStruct)
    → Kept 0 h h'
    → AreElements h ps es
    → AreElements h' ps es
AreElements-Kept h h' [] [] k i = tt
AreElements-Kept h h' [] (e ∷ es) k i = i
AreElements-Kept h h' (p ∷ ps) [] k i = i
AreElements-Kept h h' (none ∷ ps) (e ∷ es) k i = absurd i.0
AreElements-Kept h h' (some a ∷ ps) (e ∷ es) k ((r, c, i), is) = (
  (r, k a (expression_cell r) (omega arith) c, IsExpression-Kept h h' r e k i),
  AreElements-Kept h h' ps es k is,
)

AreExpressions-Kept :
    (h h' : Heap) (p : Option ℕ) (es : List ExpressionStruct)
    → Kept 0 h h'
    → AreExpressions h p es
    → AreExpressions h' p es
AreExpressions-Kept h h' none es k e = e
AreExpressions-Kept h h' (some a) es k (ps, c, i) =
    (ps, k a (pointer_array ps) (omega arith) c, AreElements-Kept h h' ps es k i)

pub record IsSelector (h : Heap) (r : SelectorRef) (s : PodSelector) : Type 0 where
  pub expressions_are : AreExpressions h r.expression s.expression
  pub labels_are : Points label_cell [] h r.labels s.labels

pub record IsSpec (h : Heap) (r : SpecRef) (s : ReceiverSpec) : Type 0 where
  pub namespace_is : IsStrings h r.namespace s.namespace
  pub selector_is : IsSelector h r.label_selector s.label_selector
  pub group_label_is : IsStrings h r.group_label s.group_label
  pub log_frequency_is : r.log_frequency ≡ s.log_frequency
  pub action_is : r.action ≡ s.action
  pub destination_is : Points dest_array [] h r.destination s.destination

pub record IsStruct (h : Heap) (r : ReceiverRef) (v : Receiver) : Type 0 where
  pub name_is : r.name ≡ v.name
  pub namespace_is : r.namespace ≡ v.namespace
  pub resource_version_is : r.resource_version ≡ v.resource_version
  pub spec_is : IsSpec h r.spec v.spec

-- The pointer is one to a custom resource with this value.
abbrev pub IsReceiver : Heap → Option ℕ → Receiver → Type 0
IsReceiver h none v = ⊥
IsReceiver h (some a) v =
    (r : ReceiverRef) × (cell_at h a ≡ some (receiver_cell r)) × IsStruct h r v

pub IsSelector-Kept :
    (h h' : Heap) (r : SelectorRef) (s : PodSelector)
    → Kept 0 h h'
    → IsSelector h r s
    → IsSelector h' r s
IsSelector-Kept h h' r s k i = record {
  expressions_are = AreExpressions-Kept h h' r.expression s.expression k i.expressions_are;
  labels_are = Points-Kept label_cell [] h h' r.labels s.labels k i.labels_are;
}

pub IsSpec-Kept :
    (h h' : Heap) (r : SpecRef) (s : ReceiverSpec) → Kept 0 h h' → IsSpec h r s → IsSpec h' r s
IsSpec-Kept h h' r s k i = record {
  namespace_is = Points-Kept string_array [] h h' r.namespace s.namespace k i.namespace_is;
  selector_is = IsSelector-Kept h h' r.label_selector s.label_selector k i.selector_is;
  group_label_is = Points-Kept string_array [] h h' r.group_label s.group_label k i.group_label_is;
  log_frequency_is = i.log_frequency_is;
  action_is = i.action_is;
  destination_is = Points-Kept dest_array [] h h' r.destination s.destination k i.destination_is;
}

pub IsStruct-Kept :
    (h h' : Heap) (r : ReceiverRef) (v : Receiver) → Kept 0 h h' → IsStruct h r v → IsStruct h' r v
IsStruct-Kept h h' r v k i = record {
  name_is = i.name_is;
  namespace_is = i.namespace_is;
  resource_version_is = i.resource_version_is;
  spec_is = IsSpec-Kept h h' r.spec v.spec k i.spec_is;
}

pub IsReceiver-Kept :
    (h h' : Heap) (p : Option ℕ) (v : Receiver) → Kept 0 h h' → IsReceiver h p v → IsReceiver h' p v
IsReceiver-Kept h h' none v k i = i
IsReceiver-Kept h h' (some a) v k (r, c, i) =
    (r, k a (receiver_cell r) (omega arith) c, IsStruct-Kept h h' r v k i)
