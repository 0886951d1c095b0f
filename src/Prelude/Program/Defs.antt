-- ===== src/Prelude/Program/Defs.antt =====
-- The monad of Go functions with early returns and panics, its loops, and replies with errors.
use mathlib.Core.Bool.{Bool}
use mathlib.Core.Option.{Option, none, some}
use mathlib.Core.List.{List, [], ◌∷◌}
use kubernetes_cluster_monit.Prelude.Tests.{if◌then◌else◌}
use kubernetes_cluster_monit.Prelude.Text.{Text}

pub data Out (R A : Type 0) : Type 0 where
  next : A → Out R A
  return : R → Out R A
  panic : Out R A

abbrev pub Prog : Type 0 → Type 0 → Type 0 → Type 0
Prog E R A = List E → Out R A × List E

-- What a Go call `v, err := f()` returns; an error is its message.
pub record Reply (A : Type 0) : Type 0 where
  pub value : A
  pub error : Option Text

module _ {E R : Type 0} where
  unfoldable pub pure : {A : Type 0} → A → Prog E R A
  pure a h = (next a, h)

  unfoldable pub exit : {A : Type 0} → R → Prog E R A
  exit r h = (return r, h)

  unfoldable pub crash : {A : Type 0} → Prog E R A
  crash h = (panic, h)

  -- A call of the outside world, which is recorded with its reply.
  unfoldable pub call : {V : Type 0} → (List E → V) → (V → E) → Prog E R V
  call answer event h = (next (answer h), event (answer h) ∷ h)

  abbrev pub and_then : {A B : Type 0} → Out R A → (A → Prog E R B) → Prog E R B
  and_then (next a) f h = f a h
  and_then (return r) f h = (return r, h)
  and_then panic f h = (panic, h)

  infixl 5 ◌>>=◌ ◌>>◌
  unfoldable pub ◌>>=◌ : {A B : Type 0} → Prog E R A → (A → Prog E R B) → Prog E R B
  m >>= f = λ h. and_then (m h).0 f (m h).1

  abbrev pub ◌>>◌ : {A B : Type 0} → Prog E R A → Prog E R B → Prog E R B
  m >> n = m >>= λ _. n

  -- `if err != nil { return r }`
  unfoldable pub return_on_error : Option Text → R → Prog E R (Unit {0})
  return_on_error none r h = (next tt, h)
  return_on_error (some e) r h = (return r, h)

  -- `v, err := f(); if err != nil { return r }`
  unfoldable pub check : {A : Type 0} → Reply A → R → Prog E R A
  check reply r = return_on_error reply.error r >> pure reply.value

  -- A nil interface value: calling a method of it panics.
  unfoldable pub deref : {A : Type 0} → Option A → Prog E R A
  deref none h = (panic, h)
  deref (some a) h = (next a, h)

  module _ {A : Type 0} where
    -- `for _, x := range xs { body }`; `continue` is the end of the body.
    unfoldable pub for_each : (A → Prog E R (Unit {0})) → List A → Prog E R (Unit {0})
    for_each body [] = pure tt
    for_each body (x ∷ xs) = body x >> for_each body xs

    -- The same for a body that says whether to `break`.
    unfoldable pub for_break : (A → Prog E R Bool) → List A → Prog E R (Unit {0})
    for_break body [] = pure tt
    for_break body (x ∷ xs) = body x >>= λ stop. if stop then pure tt else for_break body xs

    -- The same for a loop that assigns one variable, `s`.
    unfoldable pub for_state :
        {S : Type 0} → (A → S → Prog E R (S × Bool)) → List A → S → Prog E R S
    for_state body [] s = pure s
    for_state body (x ∷ xs) s =
        body x s >>= λ after. if after.1 then pure after.0 else for_state body xs after.0

-- A function ends with what it returns, or not at all: its last statement is its result too.
abbrev pub result : {R : Type 0} → Out R R → Option R
result (next r) = some r
result (return r) = some r
result panic = none

abbrev pub ended : {E R S : Type 0} → Out R R → Prog E S R
ended (next r) h = (next r, h)
ended (return r) h = (next r, h)
ended panic h = (panic, h)

-- The call of such a function from another one.
abbrev pub embed : {E R S : Type 0} → Prog E R R → Prog E S R
embed m h = ended (m h).0 (m h).1

-- What a proof names that runs a program.
unfoldable pub program : Unit {0}
unfolding pure exit crash call ◌>>=◌ return_on_error check deref
program = tt

-- Each call since `h₀` is allowed after those before it.
pub data Since {E : Type 0} (J : List E → E → Type 0) (h₀ : List E) : List E → Type 0 where
  begun : Since J h₀ h₀
  followed : {h : List E} {e : E} → Since J h₀ h → J h e → Since J h₀ (e ∷ h)
