-- ===== src/Prelude/Text/Trim.antt =====
-- `strings.TrimLeft`, `strings.TrimRight` and `strings.TrimSpace`; a cutset is a test on bytes.
use Prim.Native.Nat.{ℕ}
use mathlib.Core.Path.{◌≡◌, refl, sym, ap}
use mathlib.Core.Bool.{Bool, true, false, ◌&&◌, ◌||◌}
use mathlib.Core.List.{List, [], ◌∷◌, ◌++◌, append_assoc}
use native.Mathlib.Omega.{arith}
use kubernetes_cluster_monit.Prelude.Tests.{◌==◌, leb, if◌then◌else◌}
use kubernetes_cluster_monit.Prelude.Lists.{all, is_empty}

unfoldable pub trim_left : (ℕ → Bool) → List ℕ → List ℕ
trim_left p [] = []
trim_left p (c ∷ s) = if p c then trim_left p s else c ∷ s

-- `c` in front of what is left of the text behind it.
abbrev put_back : (ℕ → Bool) → ℕ → List ℕ → List ℕ
put_back p c rest = if p c && is_empty rest then [] else c ∷ rest

unfoldable pub trim_right : (ℕ → Bool) → List ℕ → List ℕ
trim_right p [] = []
trim_right p (c ∷ s) = put_back p c (trim_right p s)

unfoldable pub is_space : ℕ → Bool
is_space c = c == b' ' || leb 9 c && leb c 13

unfoldable pub trim_space : List ℕ → List ℕ
unfolding trim_left trim_right is_space
trim_space s = trim_right is_space (trim_left is_space s)

-- A text of the cutset alone is trimmed away, behind anything.
pub trim_right-append_all :
    (p : ℕ → Bool) (s t : List ℕ) → all p t ≡ true → trim_right p (s ++ t) ≡ trim_right p s
unfolding trim_right
trim_right-append_all p [] [] h = refl
trim_right-append_all p [] (c ∷ t) h = ground (arith, trim_right-append_all p [] t)
trim_right-append_all p (c ∷ s) t h = ap (put_back p c) (trim_right-append_all p s t h)

-- Nothing is trimmed in front of a last byte that is not in the cutset.
pub trim_right-concat :
    (p : ℕ → Bool) (s : List ℕ) (c : ℕ) → p c ≡ false → trim_right p (s ++ c ∷ []) ≡ s ++ c ∷ []
unfolding trim_right
trim_right-concat p [] c h = ground arith
trim_right-concat p (d ∷ []) c h = ground (arith, trim_right-concat p [] c)
trim_right-concat p (d ∷ e ∷ s) c h = ground (arith, trim_right-concat p (e ∷ s) c)

pub trim_left-cons : (p : ℕ → Bool) (c : ℕ) (s : List ℕ) → p c ≡ false → trim_left p (c ∷ s) ≡ c ∷ s
unfolding trim_left
trim_left-cons p c s h = ground arith

-- A text with a last byte that is not in the cutset.
abbrev pub Ends : (ℕ → Bool) → List ℕ → Type 0
Ends p t = (s : List ℕ) × (c : ℕ) × (t ≡ s ++ c ∷ []) × (p c ≡ false)

pub trim_right-Ends : (p : ℕ → Bool) (t : List ℕ) → Ends p t → trim_right p t ≡ t
trim_right-Ends p t (s, c, e, h) = rw e (trim_right-concat p s c h)

pub Ends-append : (p : ℕ → Bool) (u t : List ℕ) → Ends p t → Ends p (u ++ t)
Ends-append p u t (s, c, e, h) = (u ++ s, c, rw e (sym (append_assoc u s (c ∷ []))), h)

pub Ends-last : (p : ℕ → Bool) (u : List ℕ) (c : ℕ) → p c ≡ false → Ends p (u ++ c ∷ [])
Ends-last p u c h = (u, c, refl, h)
