-- ===== src/Receiver/Copies/Lists/Isolated.antt =====
-- A deep copy of a list has the values of its original, and shares nothing with it.
use kubernetes_cluster_monit.Prelude.{ℕ, ◌≡◌, Option, none, some, List, [], ◌∷◌, arith, length}
use kubernetes_cluster_monit.Prelude.Text.{Text}
use kubernetes_cluster_monit.Receiver.{Receiver}
use kubernetes_cluster_monit.Receiver.Copies.{
  ReceiverRef, ListRef, receiver_array, list_cell, Heap, cell_at, copy_receiver,
}
use kubernetes_cluster_monit.Receiver.Copies.Isolated.{copy_receiver-Copied, KeptBelow}
use kubernetes_cluster_monit.Receiver.Copies.Later.{
  Kept, Copied, IsAt, allocate-Copied, nothing-Copied, Copied-bind, cell_at-some,
}
use kubernetes_cluster_monit.Receiver.Copies.Lists.{
  copy_items, copy_item_array, copy_list, deep_copy_list, RuntimeObject, list_object, unless_nil,
  deep_copy_list_object,
}
use kubernetes_cluster_monit.Receiver.Copies.Values.{IsStruct, IsStruct-Kept}

abbrev pub AreStructs : Heap → List ReceiverRef → List Receiver → Type 0
AreStructs h [] [] = Unit
AreStructs h [] (v ∷ vs) = ⊥
AreStructs h (r ∷ rs) [] = ⊥
AreStructs h (r ∷ rs) (v ∷ vs) = IsStruct h r v × AreStructs h rs vs

-- The items at a reference; `nil` is the empty list.
abbrev pub AreItems : Heap → Option ℕ → List Receiver → Type 0
AreItems h none vs = vs ≡ []
AreItems h (some a) vs =
    (rs : List ReceiverRef) × (cell_at h a ≡ some (receiver_array rs)) × AreStructs h rs vs

-- The pointer is one to a list of that version, with these items.
abbrev pub IsReceiverList : Heap → Option ℕ → Text → List Receiver → Type 0
IsReceiverList h none version vs = ⊥
IsReceiverList h (some a) version vs =
    (l : ListRef) × (cell_at h a ≡ some (list_cell l))
    × (l.list_version ≡ version)
    × AreItems h l.items vs

AreStructs-Kept :
    (h h' : Heap) (rs : List ReceiverRef) (vs : List Receiver)
    → Kept 0 h h'
    → AreStructs h rs vs
    → AreStructs h' rs vs
AreStructs-Kept h h' [] [] k i = tt
AreStructs-Kept h h' [] (v ∷ vs) k i = i
AreStructs-Kept h h' (r ∷ rs) [] k i = i
AreStructs-Kept h h' (r ∷ rs) (v ∷ vs) k (i, is) =
    (IsStruct-Kept h h' r v k i, AreStructs-Kept h h' rs vs k is)

AreItems-Kept :
    (h h' : Heap) (p : Option ℕ) (vs : List Receiver)
    → Kept 0 h h'
    → AreItems h p vs
    → AreItems h' p vs
AreItems-Kept h h' none vs k e = e
AreItems-Kept h h' (some a) vs k (rs, c, i) =
    (rs, k a (receiver_array rs) (omega arith) c, AreStructs-Kept h h' rs vs k i)

IsReceiverList-Kept :
    (h h' : Heap) (p : Option ℕ) (version : Text) (vs : List Receiver)
    → Kept 0 h h'
    → IsReceiverList h p version vs
    → IsReceiverList h' p version vs
IsReceiverList-Kept h h' none version vs k i = i
IsReceiverList-Kept h h' (some a) version vs k (l, c, e, i) =
    (l, k a (list_cell l) (omega arith) c, e, AreItems-Kept h h' l.items vs k i)

copy_items-Copied :
    (rs : List ReceiverRef) (h : Heap) (vs : List Receiver)
    → AreStructs h rs vs
    → Copied h (copy_items rs h) (λ later qs. AreStructs later qs vs)
unfolding copy_items
copy_items-Copied [] h [] i = nothing-Copied [] h (λ later. tt)
copy_items-Copied [] h (v ∷ vs) i = absurd i
copy_items-Copied (r ∷ rs) h [] i = absurd i
copy_items-Copied (r ∷ rs) h (v ∷ vs) (i, is) =
    let first = copy_receiver-Copied r h v i in
    Copied-bind _ first
      (copy_items-Copied rs (copy_receiver r h).1 vs
        (AreStructs-Kept h (copy_receiver r h).1 rs vs first.grows is))
      (λ later x y. (x, y))

copy_item_array-Copied :
    (p : Option ℕ) (h : Heap) (vs : List Receiver)
    → AreItems h p vs
    → Copied h (copy_item_array p h) (λ later q. AreItems later q vs)
unfolding copy_item_array
copy_item_array-Copied none h vs e = nothing-Copied none h (λ later. e)
copy_item_array-Copied (some a) h vs (rs, c, i) =
    rw (c, copy_item_array)
      (Copied-bind {Q = λ later q. IsAt later q (receiver_array (copy_items rs h).0)} _
        (copy_items-Copied rs h vs i) (allocate-Copied _ (copy_items rs h).1 (λ later j. j))
        (λ later x y. ((copy_items rs h).0, y, x)))

deep_copy_list-Copied :
    (p : Option ℕ) (h : Heap) (version : Text) (vs : List Receiver)
    → IsReceiverList h p version vs
    → Copied h (deep_copy_list p h) (λ later q. IsReceiverList later q version vs)
unfolding deep_copy_list copy_list
deep_copy_list-Copied none h version vs i = absurd i
deep_copy_list-Copied (some a) h version vs (l, c, e, i) =
    rw (c, deep_copy_list)
      (Copied-bind {Q = λ later q. IsAt later q (list_cell (copy_list l h).0)} _
        (copy_item_array-Copied l.items h vs i)
        (allocate-Copied _ (copy_item_array l.items h).1 (λ later j. j))
        (λ later x y. ((copy_list l h).0, y, e, x)))

-- The object that is made of a pointer to a copy: it is never a pointer that is nil.
abbrev pub IsListObject : Heap → RuntimeObject → Text → List Receiver → Type 0
IsListObject h (list_object q) version vs = IsReceiverList h q version vs
IsListObject h _ version vs = ⊥

unless_nil-IsListObject :
    (h : Heap) (q : Option ℕ) (version : Text) (vs : List Receiver)
    → IsReceiverList h q version vs
    → IsListObject h (unless_nil list_object q) version vs
unless_nil-IsListObject h none version vs i = i
unless_nil-IsListObject h (some a) version vs i = i

-- The object that `DeepCopyObject` makes of a list of custom resources is a list with the same version and
-- the same custom resources, in their order, and keeps them whatever is done later to all the objects
-- that were there before; and the original keeps them whatever is done later to all the objects
-- that the copy has made.
pub deep_copy_list_object-isolated :
    (p : Option ℕ) (h : Heap) (version : Text) (vs : List Receiver)
    → IsReceiverList h p version vs
    → ((later : Heap)
        → Kept (length h) (deep_copy_list_object p h).1 later
        → IsListObject later (deep_copy_list_object p h).0 version vs)
      × ((later : Heap)
          → KeptBelow (length h) (deep_copy_list_object p h).1 later
          → IsReceiverList later p version vs)
unfolding deep_copy_list_object
deep_copy_list_object-isolated p h version vs i =
    let c = deep_copy_list-Copied p h version vs i in
    (
      λ later k. unless_nil-IsListObject later _ version vs (c.holds later k),
      λ later k.
          IsReceiverList-Kept h later p version vs
            (λ a d n e. k a d (cell_at-some h a d e) (c.grows a d n e)) i,
    )
