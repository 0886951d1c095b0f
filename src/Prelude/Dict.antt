-- ===== src/Prelude/Dict.antt =====
-- Go's `map[string]string` as an association list, in the order in which a `range` visits it. A nil
-- map is `none`: it reads as an empty one.
use mathlib.Core.Path.{◌≡◌, refl}
use mathlib.Core.Option.{Option, none, some}
use mathlib.Core.List.{List, [], ◌∷◌}
use native.Mathlib.Omega.{arith}
use kubernetes_cluster_monit.Prelude.Tests.{if◌then◌else◌}
use kubernetes_cluster_monit.Prelude.Text.{Text, text_eq, text_eq_iff}

abbrev pub Dict : Type 0
Dict = List (Text × Text)

-- `v, ok := m[k]`
unfoldable pub lookup : Text → Dict → Option Text
lookup k [] = none
lookup k ((j, v) ∷ m) = if text_eq j k then some v else lookup k m

-- `m[k] = v`
unfoldable pub insert : Text → Text → Dict → Dict
insert k v [] = (k, v) ∷ []
insert k v ((j, w) ∷ m) = if text_eq j k then (k, v) ∷ m else (j, w) ∷ insert k v m

-- `delete(m, k)`; a later binding of `k` goes too.
unfoldable pub erase : Text → Dict → Dict
erase k [] = []
erase k ((j, w) ∷ m) = let rest = erase k m in if text_eq j k then rest else (j, w) ∷ rest

abbrev pub value_or_empty : Option Text → Text
value_or_empty none = []
value_or_empty (some v) = v

-- `m[k]`: the zero value of a missing key is the empty string.
abbrev pub get : Text → Dict → Text
get k m = value_or_empty (lookup k m)

-- Reading a map that may be nil.
abbrev pub entries : Option Dict → Dict
entries none = []
entries (some m) = m

pub lookup-insert :
    (k j v : Text) (m : Dict)
    → lookup j (insert k v m) ≡ (if text_eq k j then some v else lookup j m)
unfolding lookup insert
lookup-insert k j v [] = refl
lookup-insert k j v ((i, w) ∷ m) =
    ground (arith, text_eq_iff k j, text_eq_iff i k, text_eq_iff i j, lookup-insert k j v m)

pub lookup-erase :
    (k j : Text) (m : Dict) → lookup j (erase k m) ≡ (if text_eq k j then none else lookup j m)
unfolding lookup erase
lookup-erase k j [] = ground arith
lookup-erase k j ((i, w) ∷ m) =
    ground (arith, text_eq_iff k j, text_eq_iff i k, text_eq_iff i j, lookup-erase k j m)
