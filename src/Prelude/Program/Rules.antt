-- ===== src/Prelude/Program/Rules.antt =====
-- Rules for what every run of a program keeps, and for what holds where it goes on.
use mathlib.Core.Path.{◌≡◌, refl}
use mathlib.Core.Option.{Option, none, some}
use mathlib.Core.List.{List, [], ◌∷◌, Memᴰ}
use mathlib.Core.Bool.{Bool, true, false}
use kubernetes_cluster_monit.Prelude.Tests.{if◌then◌else◌}
use kubernetes_cluster_monit.Prelude.Text.{Text}
use kubernetes_cluster_monit.Prelude.Lists.{All}
use kubernetes_cluster_monit.Prelude.Program.Defs.{
  program, Out, next, return, panic, Prog, pure, call, and_then, ◌>>=◌, ◌>>◌, for_each, for_break,
  for_state, exit, crash, return_on_error, deref, check, Reply,
}

abbrev pub After : {E R A : Type 0} → (A → List E → Type 0) → Out R A → List E → Type 0
After Q (next a) h = Q a h
After Q (return r) h = Unit
After Q panic h = Unit

-- From a history with `I` and `P` the program keeps `I`, however it ends, and where it goes on with
-- `a`, `Q a` holds.
pub record Triple {E R A : Type 0} (I P : List E → Type 0) (m : Prog E R A)
    (Q : A → List E → Type 0) : Type 0 where
  pub run : (h : List E) → I h → P h → I (m h).1 × After Q (m h).0 (m h).1

module _ {E R : Type 0} {I : List E → Type 0} where
  pub pure-Triple :
      {A : Type 0} {P : List E → Type 0} (a : A) → Triple {R = R} I P (pure a) (λ _. P)
  unfolding program
  pure-Triple a = record { run = λ h i p. (i, p) }

  pub pure_post-Triple :
      {A : Type 0} {P : List E → Type 0} {Q : A → List E → Type 0} (a : A)
      → ((h : List E) → P h → Q a h)
      → Triple {R = R} I P (pure a) Q
  unfolding program
  pure_post-Triple a w = record { run = λ h i p. (i, w h p) }

  pub exit-Triple :
      {A : Type 0} {P : List E → Type 0} {Q : A → List E → Type 0} (r : R) → Triple I P (exit r) Q
  unfolding program
  exit-Triple r = record { run = λ h i p. (i, tt) }

  pub crash-Triple :
      {A : Type 0} {P : List E → Type 0} {Q : A → List E → Type 0} → Triple {R = R} I P crash Q
  unfolding program
  crash-Triple = record { run = λ h i p. (i, tt) }

  pub return_on_error-Triple :
      {P : List E → Type 0} (e : Option Text) (r : R) → Triple I P (return_on_error e r) (λ _. P)
  unfolding program
  return_on_error-Triple none r = record { run = λ h i p. (i, p) }
  return_on_error-Triple (some e) r = record { run = λ h i p. (i, tt) }

  -- What is known of the value goes on with it.
  pub deref-Triple :
      {A : Type 0} {P : List E → Type 0} (o : Option A) → Triple {R = R} I P (deref o) (λ _. P)
  unfolding program
  deref-Triple none = record { run = λ h i p. (i, tt) }
  deref-Triple (some a) = record { run = λ h i p. (i, p) }

  -- A call keeps the invariant if its event does.
  pub call-Triple :
      {V : Type 0} {P : List E → Type 0} {Q : V → List E → Type 0} (answer : List E → V)
      (event : V → E)
      → ((h : List E) → I h → P h → I (event (answer h) ∷ h) × Q (answer h) (event (answer h) ∷ h))
      → Triple {R = R} I P (call answer event) Q
  unfolding program
  call-Triple answer event k = record { run = k }

  and_then-Triple :
      {A B : Type 0} {Q : A → List E → Type 0} (S : B → List E → Type 0) (o : Out R A)
      (f : A → Prog E R B) (h : List E)
      → ((a : A) → Triple I (Q a) (f a) S)
      → I h
      → After Q o h
      → I (and_then o f h).1 × After S (and_then o f h).0 (and_then o f h).1
  and_then-Triple S (next a) f h k i q = (k a).run h i q
  and_then-Triple S (return r) f h k i q = (i, tt)
  and_then-Triple S panic f h k i q = (i, tt)

  pub bind-Triple :
      {A B : Type 0} {P : List E → Type 0} {Q : A → List E → Type 0} {S : B → List E → Type 0}
      {m : Prog E R A} {f : A → Prog E R B}
      → Triple I P m Q
      → ((a : A) → Triple I (Q a) (f a) S)
      → Triple I P (m >>= f) S
  unfolding program
  bind-Triple {S = S} {m = m} {f = f} t k = record {
    run = λ h i p. let (i', q) = t.run h i p in and_then-Triple S (m h).0 f (m h).1 k i' q;
  }

  -- `check` goes on with the value of the reply.
  pub check_bind-Triple :
      {A B : Type 0} {P : List E → Type 0} {S : B → List E → Type 0} (reply : Reply A) (r : R)
      (f : A → Prog E R B)
      → Triple I P (f reply.value) S
      → Triple I P (check reply r >>= f) S
  unfolding program
  check_bind-Triple {P = P} {S = S} reply r f t = record {
    run = λ h i p. by_error reply.error h i p;
  }
    where
      by_error :
          (e : Option Text) (h : List E)
          → I h
          → P h
          → I ((return_on_error e r >> pure reply.value >>= f) h).1
            × After S
                ((return_on_error e r >> pure reply.value >>= f) h).0
                ((return_on_error e r >> pure reply.value >>= f) h).1
      by_error none h i p = t.run h i p
      by_error (some e) h i p = (i, tt)

  -- `deref` goes on with what the pointer holds.
  pub deref_bind-Triple :
      {A B : Type 0} {P : List E → Type 0} {S : B → List E → Type 0} (o : Option A)
      (f : A → Prog E R B)
      → ((a : A) → o ≡ some a → Triple I P (f a) S)
      → Triple I P (deref o >>= f) S
  unfolding program
  deref_bind-Triple none f t = record { run = λ h i p. (i, tt) }
  deref_bind-Triple (some a) f t = t a refl

  pub weaken-Triple :
      {A : Type 0} {P : List E → Type 0} {Q S : A → List E → Type 0} (m : Prog E R A)
      → Triple I P m Q
      → ((a : A) (h : List E) → Q a h → S a h)
      → Triple I P m S
  weaken-Triple {A = A} {Q = Q} {S = S} m t w = record {
    run = λ h i p. let (i', q) = t.run h i p in (i', weaken (m h).0 (m h).1 q);
  }
    where
      weaken : (o : Out R A) (h : List E) → After Q o h → After S o h
      weaken (next a) h q = w a h q
      weaken (return r) h q = tt
      weaken panic h q = tt

  pub for_each-Triple :
      {A : Type 0} {P : List E → Type 0} (body : A → Prog E R (Unit {0})) (xs : List A)
      → All (λ x. Triple I P (body x) (λ _. P)) xs
      → Triple I P (for_each body xs) (λ _. P)
  unfolding for_each
  for_each-Triple body [] all = pure-Triple tt
  for_each-Triple body (x ∷ xs) all = bind-Triple all.0 (λ _. for_each-Triple body xs all.1)

  pub for_break-Triple :
      {A : Type 0} {P : List E → Type 0} (body : A → Prog E R Bool) (xs : List A)
      → ((x : A) → Triple I P (body x) (λ _. P))
      → Triple I P (for_break body xs) (λ _. P)
  unfolding for_break
  for_break-Triple body [] each = pure-Triple tt
  for_break-Triple {P = P} body (x ∷ xs) each = bind-Triple (each x) λ stop.
      elim stop as (λ b. Triple I P (if b then pure tt else for_break body xs) (λ _. P)) [
        | true ↦ pure-Triple tt
        | false ↦ for_break-Triple body xs each
      ]

  -- What holds with the variable holds on with its new value; the elements are those of the list.
  pub for_state-Triple :
      {A S : Type 0} {P : S → List E → Type 0} (body : A → S → Prog E R (S × Bool)) (xs : List A)
      → ((x : A) → Memᴰ x xs → (s : S) → Triple I (P s) (body x s) (λ after. P after.0))
      → (s : S) → Triple I (P s) (for_state body xs s) P
  unfolding for_state
  for_state-Triple body [] each s = pure_post-Triple s (λ h p. p)
  for_state-Triple {P = P} body (x ∷ xs) each s = bind-Triple (each x (Memᴰ.head refl) s) λ after.
      elim after.1
        as (λ b. Triple I (P after.0) (if b then pure after.0 else for_state body xs after.0) P) [
          | true ↦ pure_post-Triple after.0 (λ h p. p)
          | false ↦ for_state-Triple body xs (λ y m. each y (Memᴰ.tail m)) after.0
        ]

  -- The same where a `break` establishes something else, as does the end of the list.
  pub search-Triple :
      {A S : Type 0} {P Q : S → List E → Type 0} (body : A → S → Prog E R (S × Bool)) (xs : List A)
      → ((x : A)
          → Memᴰ x xs
          → (s : S) → Triple I (P s) (body x s) (λ after. if after.1 then Q after.0 else P after.0))
      → ((s : S) (h : List E) → P s h → Q s h)
      → (s : S) → Triple I (P s) (for_state body xs s) Q
  unfolding for_state
  search-Triple body [] each last s = pure_post-Triple s (last s)
  search-Triple {P = P} {Q = Q} body (x ∷ xs) each last s =
      bind-Triple (each x (Memᴰ.head refl) s) λ after.
        elim after.1
          as (λ b.
            Triple I (if b then Q after.0 else P after.0)
              (if b then pure after.0 else for_state body xs after.0) Q) [
                | true ↦ pure_post-Triple after.0 (λ h q. q)
                | false ↦ search-Triple body xs (λ y m. each y (Memᴰ.tail m)) last after.0
              ]
