-- ===== src/Prelude/Text/Split.antt =====
-- `strings.Index` for one byte, `strings.Replace` with no limit, and `strings.Split`.
use Prim.Native.Nat.{ℕ, zero, suc, ◌-◌, ◌<◌}
use mathlib.Core.Path.{◌≡◌, refl, ap, ◌∙◌}
use mathlib.Core.Bool.{Bool, true, false, not, ◌&&◌}
use mathlib.Core.Option.{Option, none, some}
use mathlib.Core.Option
use mathlib.Core.List.{List, [], ◌∷◌, ◌++◌, append-nil, append_assoc}
use native.Mathlib.Omega.{arith}
use kubernetes_cluster_monit.Prelude.Tests.{◌==◌, if◌then◌else◌}
use kubernetes_cluster_monit.Prelude.Lists.{all, length}

-- The position of the first `b`; `none` is Go's -1.
unfoldable pub index : ℕ → List ℕ → Option ℕ
index b [] = none
index b (c ∷ s) = if c == b then some 0 else Option.map suc (index b s)

abbrev pub has_no : ℕ → List ℕ → Bool
has_no b = all (λ c. not (c == b))

pub index-append :
    (b : ℕ) (s t : List ℕ) → has_no b s ≡ true → index b (s ++ b ∷ t) ≡ some (length s)
unfolding index
index-append b [] t h = ground arith
index-append b (c ∷ s) t h = ground (arith, index-append b s t)

pub index-has_no : (b : ℕ) (s : List ℕ) → has_no b s ≡ true → index b s ≡ none
unfolding index
index-has_no b [] h = refl
index-has_no b (c ∷ s) h = ground (arith, index-has_no b s)

pub index-lt : (b : ℕ) (s : List ℕ) (i : ℕ) → index b s ≡ some i → i < length s
unfolding index
index-lt b [] i h = ground arith
index-lt b (c ∷ s) zero h = omega arith
index-lt b (c ∷ s) (suc i) h = ground (arith, index-lt b s i)

unfoldable pub starts_with : List ℕ → List ℕ → Bool
starts_with [] s = true
starts_with (x ∷ old) [] = false
starts_with (x ∷ old) (c ∷ s) = x == c && starts_with old s

-- `skip` bytes of a match remain to be passed over.
replace_from : List ℕ → List ℕ → ℕ → List ℕ → List ℕ
replace_from old new skip [] = []
replace_from old new (suc skip) (c ∷ s) = replace_from old new skip s
replace_from old new zero (c ∷ s) = elim (starts_with old (c ∷ s)) [
  | true ↦ new ++ replace_from old new (length old - 1) s
  | false ↦ c ∷ replace_from old new 0 s
]

-- `strings.Replace(s, old, new, -1)` for an `old` that is not empty.
unfoldable pub replace : List ℕ → List ℕ → List ℕ → List ℕ
unfolding replace_from
replace old new = replace_from old new 0

-- Text in which `old` never starts is left as it is.
abbrev pub Lacks : List ℕ → List ℕ → Type 0
Lacks old [] = Unit
Lacks old (c ∷ s) = (starts_with old (c ∷ s) ≡ false) × Lacks old s

pub replace-Lacks : (old new s : List ℕ) → Lacks old s → replace old new s ≡ s
unfolding replace
replace-Lacks old new [] h = refl
replace-Lacks old new (c ∷ s) h = rw (h.0, replace_from) (ap (◌∷◌ c) (replace-Lacks old new s h.1))

pub has_no-Lacks : (b : ℕ) (old s : List ℕ) → has_no b s ≡ true → Lacks (b ∷ old) s
unfolding starts_with
has_no-Lacks b old [] h = tt
has_no-Lacks b old (c ∷ s) h = (ground arith, has_no-Lacks b old s (ground arith))

pub has_no-append :
    (b : ℕ) (s t : List ℕ) → has_no b s ≡ true → has_no b t ≡ true → has_no b (s ++ t) ≡ true
has_no-append b [] t h k = k
has_no-append b (c ∷ s) t h k = ground (arith, has_no-append b s t)

-- The piece `acc` grows at its end until the separator comes.
unfoldable pub split_from : List ℕ → ℕ → List ℕ → List ℕ → List (List ℕ)
unfolding starts_with
split_from sep skip acc [] = acc ∷ []
split_from sep (suc skip) acc (c ∷ s) = split_from sep skip acc s
split_from sep zero acc (c ∷ s) = elim (starts_with sep (c ∷ s)) [
  | true ↦ acc ∷ split_from sep (length sep - 1) [] s
  | false ↦ split_from sep 0 (acc ++ c ∷ []) s
]

-- `strings.Split(s, sep)` for a `sep` that is not empty.
unfoldable pub split : List ℕ → List ℕ → List (List ℕ)
unfolding split_from
split sep s = split_from sep 0 [] s

-- `strings.Join`
unfoldable pub join : List ℕ → List (List ℕ) → List ℕ
join sep [] = []
join sep (x ∷ []) = x
join sep (x ∷ y ∷ xs) = x ++ (sep ++ join sep (y ∷ xs))

split_from-has_no :
    (b : ℕ) (acc s t : List ℕ)
    → has_no b s ≡ true
    → split_from (b ∷ []) 0 acc (s ++ b ∷ t) ≡ (acc ++ s) ∷ split_from (b ∷ []) 0 [] t
unfolding split_from
split_from-has_no b acc [] t h = rw append-nil (ground arith)
split_from-has_no b acc (c ∷ s) t h =
    ground (arith, split_from-has_no b (acc ++ c ∷ []) s t, append_assoc acc (c ∷ []) s)

split_from-last :
    (b : ℕ) (acc s : List ℕ) → has_no b s ≡ true → split_from (b ∷ []) 0 acc s ≡ (acc ++ s) ∷ []
unfolding split_from
split_from-last b acc [] h = rw append-nil
split_from-last b acc (c ∷ s) h =
    ground (arith, split_from-last b (acc ++ c ∷ []) s, append_assoc acc (c ∷ []) s)

-- Splitting at a byte undoes joining by it, where no piece holds the byte.
pub split-join :
    (b : ℕ) (x : List ℕ) (xs : List (List ℕ))
    → all (has_no b) (x ∷ xs) ≡ true
    → split (b ∷ []) (join (b ∷ []) (x ∷ xs)) ≡ x ∷ xs
unfolding split join
split-join b x [] h = split_from-last b [] x (ground arith)
split-join b x (y ∷ xs) h =
    split_from-has_no b [] x _ (ground arith) ∙ ap (◌∷◌ x) (split-join b y xs (ground arith))
