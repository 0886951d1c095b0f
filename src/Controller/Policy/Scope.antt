-- ===== src/Controller/Policy/Scope.antt =====
-- The namespaces that a handler visits.
use kubernetes_cluster_monit.Controller.Policy.{assign, default_namespace, namespaces}
use kubernetes_cluster_monit.Prelude.{
  suc, ◌+◌, ◌≡◌, refl, sym, ap, ◌∙◌, fun_ext, inl, inr, Bool, true, false, not, List, [], ◌∷◌, ◌++◌,
  append_assoc, if◌then◌else◌, Bool-cases, length, replicate, take_while, is_empty, length-append,
  set-length,
}
use kubernetes_cluster_monit.Prelude.Program.{
  Out, next, return, panic, Prog, pure, and_then, ◌>>◌, for_each, for_break, program, Completes,
}
use kubernetes_cluster_monit.Prelude.Text.{Text, text_eq}

-- The policy's own list up to its first empty name, or the default namespace for an empty list.
abbrev pub scope : List Text → List Text
scope given =
    if is_empty given then default_namespace ∷ [] else take_while (λ ns. not (text_eq ns [])) given

assign-append :
    (vs pre : List Text)
    → assign (length pre) vs (pre ++ replicate (suc (length vs)) []) ≡ pre ++ (vs ++ [] ∷ [])
unfolding assign
assign-append [] pre = refl
assign-append (v ∷ vs) pre =
    ap (assign (length pre + 1) vs) (set-length pre (replicate (suc (length vs)) []) [] v)
    ∙ rw (sym (length-snoc)) (
        rw (sym (append_assoc pre (v ∷ []) (replicate (suc (length vs)) [])))
          (assign-append vs (pre ++ v ∷ []) ∙ append_assoc pre (v ∷ []) (vs ++ [] ∷ [])))
  where
    length-snoc : length (pre ++ v ∷ []) ≡ length pre + 1
    length-snoc = length-append pre (v ∷ [])

-- Every namespace stands in the array, with one empty name behind.
pub namespaces_lem :
    (given : List Text)
    → namespaces given ≡ (if is_empty given then default_namespace ∷ [] else given ++ [] ∷ [])
unfolding namespaces
namespaces_lem [] = refl
namespaces_lem (v ∷ vs) = assign-append (v ∷ vs) []

module _ {E R : Type 0} (body : Text → Prog E R (Unit {0})) where
  -- The body of the loop over `nspaces`, with its `break`.
  abbrev pub until_empty : Text → Prog E R Bool
  until_empty ns = if text_eq ns [] then pure true else body ns >> pure false

  until_empty-next :
      (o : Out R (Unit {0})) (h : List E) (rest : Prog E R (Unit {0}))
      → (and_then
          (and_then o (λ _. pure false) h).0
          (λ stop. if stop then pure tt else rest)
          (and_then o (λ _. pure false) h).1)
        ≡ and_then o (λ _. rest) h
  unfolding program
  until_empty-next (next a) h rest = refl
  until_empty-next (return r) h rest = refl
  until_empty-next panic h rest = refl

  for_break-until_empty :
      (xs : List Text) (h : List E)
      → for_break until_empty (xs ++ [] ∷ []) h
        ≡ for_each body (take_while (λ ns. not (text_eq ns [])) xs) h
  unfolding program for_break for_each text_eq
  for_break-until_empty [] h = refl
  for_break-until_empty (x ∷ xs) h = elim (Bool-cases (text_eq x [])) [
    | inl e ↦ rw e
    | inr e ↦ rw e (
        until_empty-next (body x h).0 (body x h).1 (for_break until_empty (xs ++ [] ∷ []))
        ∙ ap (λ r. and_then (body x h).0 (λ _. r) (body x h).1)
            (fun_ext (for_break-until_empty xs)))
  ]

  -- The loop over `nspaces` with its `break` visits exactly the namespaces of `scope`, in order.
  pub for_break-namespaces :
      (given : List Text) (h : List E)
      → for_break until_empty (namespaces given) h ≡ for_each body (scope given) h
  unfolding program for_break for_each text_eq
  for_break-namespaces [] h =
      rw (namespaces_lem [])
        (until_empty-next (body default_namespace h).0 (body default_namespace h).1 (pure tt))
  for_break-namespaces (v ∷ vs) h = rw (namespaces_lem (v ∷ vs)) (for_break-until_empty (v ∷ vs) h)

  -- So does every run of it that goes on.
  pub scope-Completes :
      {Q : Unit {0} → List E → Type 0} (given : List Text) (h : List E)
      → Completes (for_each body (scope given)) h Q
      → Completes (for_break until_empty (namespaces given)) h Q
  scope-Completes given h c = record {
    value = c.value;
    after = c.after;
    goes_on = for_break-namespaces given h ∙ c.goes_on;
    grows = c.grows;
    holds = c.holds;
  }
