-- ===== src/Prelude/Program/Total.antt =====
-- Runs that go on to the next statement, and what has happened when they do.
use mathlib.Core.Path.{◌≡◌, refl, sym, ap, ◌∙◌, subst}
use mathlib.Core.Option.{Option, none, some}
use mathlib.Core.List.{List, [], ◌∷◌, ◌++◌, Memᴰ, append_assoc}
use mathlib.Core.Bool.{Bool, true, false}
use Prim.Native.Nat.{◌≤◌}
use native.Mathlib.Omega.{arith}
use kubernetes_cluster_monit.Prelude.Lists.{length, length-append, All, Mem-right}
use kubernetes_cluster_monit.Prelude.Program.Defs.{
  Out, next, Prog, Reply, pure, call, and_then, ◌>>=◌, ◌>>◌, return_on_error, check, deref,
  for_each, for_state, program,
}
use kubernetes_cluster_monit.Prelude.Tests.{if◌then◌else◌}
use kubernetes_cluster_monit.Prelude.Text.{Text}

-- The later record has the earlier one behind its new calls.
abbrev pub Extends : {E : Type 0} → List E → List E → Type 0
Extends {E} h h' = (new : List E) × (h' ≡ new ++ h)

pub Extends-refl : {E : Type 0} (h : List E) → Extends h h
Extends-refl h = ([], refl)

pub Extends-trans : {E : Type 0} (h h' h'' : List E) → Extends h h' → Extends h' h'' → Extends h h''
Extends-trans h h' h'' (a, p) (b, q) = (b ++ a, q ∙ ap (◌++◌ b) p ∙ sym (append_assoc b a h))

pub Mem-Extends : {E : Type 0} {e : E} {h h' : List E} → Extends h h' → Memᴰ e h → Memᴰ e h'
Mem-Extends {e = e} {h = h} (a, p) m = subst (Memᴰ e) (sym p) (Mem-right a h m)

pub Extends-length : {E : Type 0} (h h' : List E) → Extends h h' → length h ≤ length h'
Extends-length h h' (a, p) = omega (arith, length-append a h, ap length p)

-- From `h` the program goes on with a value, and `Q` holds of it and of the record then.
pub record Completes {E R A : Type 0} (m : Prog E R A) (h : List E) (Q : A → List E → Type 0)
    : Type 0 where
  pub value : A
  pub after : List E
  pub goes_on : m h ≡ (next value, after)
  pub grows : Extends h after
  pub holds : Q value after

-- What later calls do not undo.
abbrev pub IsStable : {E : Type 0} → (List E → Type 0) → Type 0
IsStable {E} P = (h h' : List E) → Extends h h' → P h → P h'

module _ {E R : Type 0} where
  pub pure-Completes :
      {A : Type 0} {Q : A → List E → Type 0} (a : A) (h : List E)
      → Q a h
      → Completes {R = R} (pure a) h Q
  unfolding program
  pure-Completes a h q = record {
    value = a;
    after = h;
    goes_on = refl;
    grows = Extends-refl h;
    holds = q;
  }

  pub call-Completes :
      {V : Type 0} {Q : V → List E → Type 0} (answer : List E → V) (event : V → E) (h : List E)
      → Q (answer h) (event (answer h) ∷ h)
      → Completes {R = R} (call answer event) h Q
  unfolding program
  call-Completes answer event h q = record {
    value = answer h;
    after = event (answer h) ∷ h;
    goes_on = refl;
    grows = (event (answer h) ∷ [], refl);
    holds = q;
  }

  pub bind-Completes :
      {A B : Type 0} {Q : A → List E → Type 0} {S : B → List E → Type 0} {m : Prog E R A}
      {f : A → Prog E R B} {h : List E}
      → Completes m h Q
      → ((a : A) (h' : List E) → Extends h h' → Q a h' → Completes (f a) h' S)
      → Completes (m >>= f) h S
  unfolding program
  bind-Completes {f = f} {h = h} c k =
      let d = k c.value c.after c.grows c.holds in
      record {
        value = d.value;
        after = d.after;
        goes_on = ap (λ (o : Out R _ × List E). and_then o.0 f o.1) c.goes_on ∙ d.goes_on;
        grows = Extends-trans h c.after d.after c.grows d.grows;
        holds = d.holds;
      }

  pub weaken-Completes :
      {A : Type 0} {Q S : A → List E → Type 0} {m : Prog E R A} {h : List E}
      → Completes m h Q
      → ((a : A) (h' : List E) → Extends h h' → Q a h' → S a h')
      → Completes m h S
  weaken-Completes c w = record {
    value = c.value;
    after = c.after;
    goes_on = c.goes_on;
    grows = c.grows;
    holds = w c.value c.after c.grows c.holds;
  }

  -- `check` of a reply with no error goes on with the value.
  pub check-Completes :
      {A B : Type 0} {S : B → List E → Type 0} (reply : Reply A) (r : R) (f : A → Prog E R B)
      (h : List E)
      → reply.error ≡ none
      → Completes (f reply.value) h S
      → Completes (check reply r >>= f) h S
  unfolding program
  check-Completes {S = S} reply r f h e c =
      subst (λ (o : Option Text). Completes (return_on_error o r >> pure reply.value >>= f) h S)
        (sym e) c

  pub return_on_error-Completes :
      {Q : Unit {0} → List E → Type 0} (e : Option Text) (r : R) (h : List E)
      → e ≡ none
      → Q tt h
      → Completes (return_on_error e r) h Q
  unfolding program
  return_on_error-Completes {Q = Q} e r h n q =
      subst (λ o. Completes (return_on_error o r) h Q) (sym n) (pure-Completes tt h q)

  pub deref-Completes :
      {A B : Type 0} {S : B → List E → Type 0} (o : Option A) (f : A → Prog E R B) (h : List E)
      {a : A}
      → o ≡ some a
      → Completes (f a) h S
      → Completes (deref o >>= f) h S
  unfolding program
  deref-Completes {S = S} o f h e c = subst (λ x. Completes (deref x >>= f) h S) (sym e) c

  -- Each body leaves something behind that the later ones do not undo.
  pub for_each-Completes :
      {A : Type 0} (body : A → Prog E R (Unit {0})) (Q : A → List E → Type 0) (xs : List A)
      (h : List E)
      → ((x : A) → IsStable (Q x))
      → ((x : A) → Memᴰ x xs → (h' : List E) → Extends h h' → Completes (body x) h' (λ _. Q x))
      → Completes (for_each body xs) h (λ _ h'. All (λ x. Q x h') xs)
  unfolding for_each
  for_each-Completes body Q [] h stable each = pure-Completes tt h tt
  for_each-Completes body Q (x ∷ xs) h stable each =
      bind-Completes (each x (Memᴰ.head refl) h (Extends-refl h)) λ u h' g q.
        weaken-Completes
          (for_each-Completes body Q xs h' stable
            (λ y m h'' g'. each y (Memᴰ.tail m) h'' (Extends-trans h h' h'' g g')))
          (λ v h'' g' all. (stable x h' h'' g' q, all))

  -- Each body takes its element off the rest, of which something holds.
  pub for_each_rest-Completes :
      {A : Type 0} (body : A → Prog E R (Unit {0})) (P : List A → List E → Type 0) (xs : List A)
      (h : List E)
      → P xs h
      → ((x : A) (rest : List A) (h' : List E)
          → P (x ∷ rest) h'
          → Completes (body x) h' (λ _. P rest))
      → Completes (for_each body xs) h (λ _. P [])
  unfolding for_each
  for_each_rest-Completes body P [] h p each = pure-Completes tt h p
  for_each_rest-Completes body P (x ∷ xs) h p each =
      bind-Completes (each x xs h p) (λ u h' g q. for_each_rest-Completes body P xs h' q each)

  -- The loop over a variable, with what each body keeps of it.
  pub for_state-Completes :
      {A S : Type 0} {P : S → List E → Type 0} (body : A → S → Prog E R (S × Bool)) (xs : List A)
      → ((x : A) (s : S) (h : List E) → P s h → Completes (body x s) h (λ after. P after.0))
      → (s : S) (h : List E) → P s h
      → Completes (for_state body xs s) h P
  unfolding for_state
  for_state-Completes body [] each s h p = pure-Completes s h p
  for_state-Completes {P = P} body (x ∷ xs) each s h p =
      bind-Completes (each x s h p) λ after h' g q.
        elim after.1
          as (λ b. Completes (if b then pure after.0 else for_state body xs after.0) h' P) [
            | true ↦ pure-Completes after.0 h' q
            | false ↦ for_state-Completes body xs each after.0 h' q
          ]
