-- ===== src/Receiver/Copies/Isolated.antt =====
-- A deep copy has the value of its original, and shares nothing with it.
use kubernetes_cluster_monit.Prelude.{ℕ, ◌<◌, ◌≡◌, Option, none, some, List, [], ◌∷◌, length}
use kubernetes_cluster_monit.Prelude.Dict.{Dict}
use kubernetes_cluster_monit.Prelude.Text.{Text}
use kubernetes_cluster_monit.Receiver.{Dest, ExpressionStruct, PodSelector, ReceiverSpec, Receiver}
use kubernetes_cluster_monit.Receiver.Copies.{
  ExpressionRef, SelectorRef, SpecRef, ReceiverRef, Cell, string_array, dest_array, label_cell,
  expression_cell, pointer_array, receiver_cell, Heap, cell_at, copy_strings, copy_dests,
  copy_labels, copy_expression, copy_pointer, copy_pointers, copy_expressions, copy_selector,
  copy_spec, copy_receiver, deep_copy,
}
use kubernetes_cluster_monit.Receiver.Copies.Later.{
  Kept, Copied, IsAt, allocate-Copied, nothing-Copied, Copied-bind, Kept-trans, cell_at-some,
}
use kubernetes_cluster_monit.Receiver.Copies.Values.{
  Points, Points-Kept, IsStrings, IsExpression, IsElement, AreElements, AreExpressions,
  AreElements-Kept, IsSelector, IsSpec, IsStruct, IsReceiver, IsSelector-Kept, IsReceiver-Kept,
}

copy_strings-Copied :
    (p : Option ℕ) (h : Heap) (xs : List Text)
    → IsStrings h p xs
    → Copied h (copy_strings p h) (λ later q. IsStrings later q xs)
unfolding copy_strings
copy_strings-Copied none h xs e = nothing-Copied none h (λ later. e)
copy_strings-Copied (some a) h xs e =
    rw (e, copy_strings) (allocate-Copied (string_array xs) h (λ later i. i))

copy_dests-Copied :
    (p : Option ℕ) (h : Heap) (xs : List Dest)
    → Points dest_array [] h p xs
    → Copied h (copy_dests p h) (λ later q. Points dest_array [] later q xs)
unfolding copy_dests
copy_dests-Copied none h xs e = nothing-Copied none h (λ later. e)
copy_dests-Copied (some a) h xs e =
    rw (e, copy_dests) (allocate-Copied (dest_array xs) h (λ later i. i))

copy_labels-Copied :
    (p : Option ℕ) (h : Heap) (m : Dict)
    → Points label_cell [] h p m
    → Copied h (copy_labels p h) (λ later q. Points label_cell [] later q m)
unfolding copy_labels
copy_labels-Copied none h m e = nothing-Copied none h (λ later. e)
copy_labels-Copied (some a) h m e =
    rw (e, copy_labels) (allocate-Copied (label_cell m) h (λ later i. i))

copy_expression-Copied :
    (r : ExpressionRef) (h : Heap) (e : ExpressionStruct)
    → IsExpression h r e
    → Copied h (copy_expression r h) (λ later q. IsExpression later q e)
unfolding copy_expression
copy_expression-Copied r h e i =
    let c = copy_strings-Copied r.values h e.values i.values_are in
    record {
      grows = c.grows;
      longer = c.longer;
      holds = λ later k. record {
        key_is = i.key_is;
        operator_is = i.operator_is;
        values_are = c.holds later k;
      };
    }

pub copy_pointer-Copied :
    (p : Option ℕ) (h : Heap) (e : ExpressionStruct)
    → IsElement h p e
    → Copied h (copy_pointer p h) (λ later q. IsElement later q e)
unfolding copy_pointer
copy_pointer-Copied none h e i = absurd i
copy_pointer-Copied (some a) h e (r, c, i) =
    rw (c, copy_pointer)
      (Copied-bind {Q = λ later q. IsAt later q (expression_cell (copy_expression r h).0)} _
        (copy_expression-Copied r h e i) (allocate-Copied _ (copy_expression r h).1 (λ later j. j))
        (λ later x y. ((copy_expression r h).0, y, x)))

copy_pointers-Copied :
    (ps : List (Option ℕ)) (h : Heap) (es : List ExpressionStruct)
    → AreElements h ps es
    → Copied h (copy_pointers ps h) (λ later qs. AreElements later qs es)
unfolding copy_pointers
copy_pointers-Copied [] h [] i = nothing-Copied [] h (λ later. tt)
copy_pointers-Copied [] h (e ∷ es) i = absurd i
copy_pointers-Copied (p ∷ ps) h [] i = absurd i
copy_pointers-Copied (p ∷ ps) h (e ∷ es) (i, is) =
    let first = copy_pointer-Copied p h e i in
    Copied-bind _ first
      (copy_pointers-Copied ps (copy_pointer p h).1 es
        (AreElements-Kept h (copy_pointer p h).1 ps es first.grows is))
      (λ later x y. (x, y))

copy_expressions-Copied :
    (p : Option ℕ) (h : Heap) (es : List ExpressionStruct)
    → AreExpressions h p es
    → Copied h (copy_expressions p h) (λ later q. AreExpressions later q es)
unfolding copy_expressions
copy_expressions-Copied none h es e = nothing-Copied none h (λ later. e)
copy_expressions-Copied (some a) h es (ps, c, i) =
    rw (c, copy_expressions)
      (Copied-bind {Q = λ later q. IsAt later q (pointer_array (copy_pointers ps h).0)} _
        (copy_pointers-Copied ps h es i) (allocate-Copied _ (copy_pointers ps h).1 (λ later j. j))
        (λ later x y. ((copy_pointers ps h).0, y, x)))

pub copy_selector-Copied :
    (r : SelectorRef) (h : Heap) (s : PodSelector)
    → IsSelector h r s
    → Copied h (copy_selector r h) (λ later q. IsSelector later q s)
unfolding copy_selector
copy_selector-Copied r h s i =
    let first = copy_expressions-Copied r.expression h s.expression i.expressions_are in
    Copied-bind _ first
      (copy_labels-Copied r.labels (copy_expressions r.expression h).1 s.labels
        (Points-Kept label_cell [] h _ r.labels s.labels first.grows i.labels_are))
      (λ later x y. record { expressions_are = x; labels_are = y })

-- What the copies behind the first one stand for.
abbrev AreLastTwo : ReceiverSpec → Heap → Option ℕ × Option ℕ → Type 0
AreLastTwo s h q = IsStrings h q.0 s.group_label × Points dest_array [] h q.1 s.destination

abbrev AreLastThree : ReceiverSpec → Heap → SelectorRef × Option ℕ × Option ℕ → Type 0
AreLastThree s h q =
    IsSelector h q.0 s.label_selector
    × IsStrings h q.1 s.group_label
    × Points dest_array [] h q.2 s.destination

pub copy_spec-Copied :
    (r : SpecRef) (h : Heap) (s : ReceiverSpec)
    → IsSpec h r s
    → Copied h (copy_spec r h) (λ later q. IsSpec later q s)
unfolding copy_spec
copy_spec-Copied r h s i =
    let h₁ = (copy_strings r.namespace h).1 in
    let h₂ = (copy_selector r.label_selector h₁).1 in
    let h₃ = (copy_strings r.group_label h₂).1 in
    let first = copy_strings-Copied r.namespace h s.namespace i.namespace_is in
    let second =
      copy_selector-Copied r.label_selector h₁ s.label_selector
        (IsSelector-Kept h h₁ r.label_selector s.label_selector first.grows i.selector_is) in
    let grown = Kept-trans h h₁ h₂ first.grows second.grows in
    let third =
      copy_strings-Copied r.group_label h₂ s.group_label
        (Points-Kept string_array [] h h₂ r.group_label s.group_label grown i.group_label_is) in
    let fourth = copy_dests-Copied r.destination h₃ s.destination (
      Points-Kept dest_array [] h h₃ r.destination s.destination
        (Kept-trans h h₂ h₃ grown third.grows) i.destination_is) in
    Copied-bind {Q = AreLastThree s} _ first
      (Copied-bind {Q = AreLastTwo s} _ second (Copied-bind _ third fourth (λ later x y. (x, y)))
        (λ later x y. (x, y.0, y.1)))
      (λ later x (y, z, w). record {
        namespace_is = x;
        selector_is = y;
        group_label_is = z;
        log_frequency_is = i.log_frequency_is;
        action_is = i.action_is;
        destination_is = w;
      })

pub copy_receiver-Copied :
    (r : ReceiverRef) (h : Heap) (v : Receiver)
    → IsStruct h r v
    → Copied h (copy_receiver r h) (λ later q. IsStruct later q v)
unfolding copy_receiver
copy_receiver-Copied r h v i =
    let c = copy_spec-Copied r.spec h v.spec i.spec_is in
    record {
      grows = c.grows;
      longer = c.longer;
      holds = λ later k. record {
        name_is = i.name_is;
        namespace_is = i.namespace_is;
        resource_version_is = i.resource_version_is;
        spec_is = c.holds later k;
      };
    }

pub deep_copy-Copied :
    (p : Option ℕ) (h : Heap) (v : Receiver)
    → IsReceiver h p v
    → Copied h (deep_copy p h) (λ later q. IsReceiver later q v)
unfolding deep_copy
deep_copy-Copied none h v i = absurd i
deep_copy-Copied (some a) h v (r, c, i) =
    rw (c, deep_copy)
      (Copied-bind {Q = λ later q. IsAt later q (receiver_cell (copy_receiver r h).0)} _
        (copy_receiver-Copied r h v i) (allocate-Copied _ (copy_receiver r h).1 (λ later j. j))
        (λ later x y. ((copy_receiver r h).0, y, x)))

-- The cells below the address `n` are the same later.
abbrev pub KeptBelow : ℕ → Heap → Heap → Type 0
KeptBelow n h h' = (a : ℕ) (c : Cell) → a < n → cell_at h a ≡ some c → cell_at h' a ≡ some c

-- The deep copy of a custom resource has its value, and keeps it whatever is done later to all the
-- objects that were there before; and the original keeps its value whatever is done later to all the
-- objects that the copy has made.
pub deep_copy-isolated :
    (p : Option ℕ) (h : Heap) (v : Receiver)
    → IsReceiver h p v
    → ((later : Heap)
        → Kept (length h) (deep_copy p h).1 later
        → IsReceiver later (deep_copy p h).0 v)
      × ((later : Heap) → KeptBelow (length h) (deep_copy p h).1 later → IsReceiver later p v)
deep_copy-isolated p h v i =
    let c = deep_copy-Copied p h v i in
    (
      c.holds,
      λ later k.
          IsReceiver-Kept h later p v (λ a d n e. k a d (cell_at-some h a d e) (c.grows a d n e)) i,
    )
