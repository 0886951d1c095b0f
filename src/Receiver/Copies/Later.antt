-- ===== src/Receiver/Copies/Later.antt =====
-- What a copy keeps of the heap, whatever is done to the old cells later.
use kubernetes_cluster_monit.Prelude.{
  ℕ, zero, suc, ◌≤◌, ◌<◌, ◌≡◌, refl, Option, none, some, [], ◌∷◌, ◌++◌, arith, length,
  length-append,
}
use kubernetes_cluster_monit.Receiver.Copies.{Cell, Heap, cell_at, allocate}

-- The cells from the address `n` on are the same later.
abbrev pub Kept : ℕ → Heap → Heap → Type 0
Kept n h h' = (a : ℕ) (c : Cell) → n ≤ a → cell_at h a ≡ some c → cell_at h' a ≡ some c

-- A new object, and the heap with it: the old cells are there, and whatever is done to them later,
-- `P` holds of the object.
pub record Copied {A : Type 0} (h : Heap) (out : A × Heap) (P : Heap → A → Type 0) : Type 0 where
  pub grows : Kept 0 h out.1
  pub longer : length h ≤ length out.1
  pub holds : (later : Heap) → Kept (length h) out.1 later → P later out.0

pub cell_at-append :
    (h new : Heap) (a : ℕ) (c : Cell) → cell_at h a ≡ some c → cell_at (h ++ new) a ≡ some c
unfolding cell_at
cell_at-append [] new a c e = absurd (cc)
cell_at-append (d ∷ h) new zero c e = e
cell_at-append (d ∷ h) new (suc a) c e = cell_at-append h new a c e

cell_at-length : (h : Heap) (c : Cell) → cell_at (h ++ c ∷ []) (length h) ≡ some c
unfolding cell_at
cell_at-length [] c = refl
cell_at-length (d ∷ h) c = cell_at-length h c

Kept-refl : (n : ℕ) (h : Heap) → Kept n h h
Kept-refl n h a c l e = e

-- The address of the cell.
abbrev pub IsAt : Heap → Option ℕ → Cell → Type 0
IsAt h none c = ⊥
IsAt h (some a) c = cell_at h a ≡ some c

pub allocate-Copied :
    {P : Heap → Option ℕ → Type 0} (c : Cell) (h : Heap)
    → ((later : Heap) → cell_at later (length h) ≡ some c → P later (some (length h)))
    → Copied h (allocate c h) P
allocate-Copied c h p = record {
  grows = λ a d l e. cell_at-append h (c ∷ []) a d e;
  longer = omega (arith, length-append h (c ∷ []));
  holds = λ later k. p later (k (length h) c (omega arith) (cell_at-length h c));
}

pub nothing-Copied :
    {A : Type 0} {P : Heap → A → Type 0} (x : A) (h : Heap)
    → ((later : Heap) → P later x)
    → Copied h (x, h) P
nothing-Copied x h p = record {
  grows = Kept-refl 0 h;
  longer = omega arith;
  holds = λ later k. p later;
}

-- One copy after another; what is made of both.
pub Copied-bind :
    {A B C : Type 0} {h : Heap} {x : A × Heap} {y : B × Heap} {P : Heap → A → Type 0}
    {Q : Heap → B → Type 0} {R : Heap → C → Type 0} (made : C)
    → Copied h x P
    → Copied x.1 y Q
    → ((later : Heap) → P later x.0 → Q later y.0 → R later made)
    → Copied h (made, y.1) R
Copied-bind {h = h} {x = x} {y = y} made p q r = record {
  grows = λ a c l e. q.grows a c l (p.grows a c l e);
  longer = omega (arith, p.longer, q.longer);
  holds = λ later k.
      r later (p.holds later (λ a c l e. k a c l (q.grows a c (omega arith) e)))
        (q.holds later (λ a c l e. k a c (omega (arith, p.longer)) e));
}

pub Kept-trans : (h h' h'' : Heap) → Kept 0 h h' → Kept 0 h' h'' → Kept 0 h h''
Kept-trans h h' h'' k l a c n e = l a c n (k a c n e)

pub cell_at-some : (h : Heap) (a : ℕ) (c : Cell) → cell_at h a ≡ some c → a < length h
unfolding cell_at
cell_at-some [] a c e = absurd (cc)
cell_at-some (d ∷ h) zero c e = omega arith
cell_at-some (d ∷ h) (suc a) c e = omega (arith, cell_at-some h a c e)
