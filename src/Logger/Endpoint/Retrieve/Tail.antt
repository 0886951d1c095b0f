-- ===== src/Logger/Endpoint/Retrieve/Tail.antt =====
-- How many logs `retrieveLogs` sends.
use kubernetes_cluster_monit.Logger.Endpoint.Retrieve.{
  array_text, start_of, slice_from, retrieve_logs,
}
use kubernetes_cluster_monit.Logger.Entry.{LogInfo}
use kubernetes_cluster_monit.Prelude.{
  ℕ, zero, suc, ◌+◌, ◌-◌, ◌≤◌, ◌<◌, ◌≡◌, refl, ap, ◌∙◌, ◌↔◌, ◌⊎◌, inl, inr, false, Option, none,
  some, List, [], ◌∷◌, ◌++◌, arith, ltb, leb, Bool-cases, length, drop, length-drop,
}
use kubernetes_cluster_monit.Prelude.Int.{ℤ, pos, negsuc}
use kubernetes_cluster_monit.Prelude.Number.{int_limit, atoi}
use kubernetes_cluster_monit.Prelude.Number.RoundTrip.{atoi_bound}
use kubernetes_cluster_monit.Prelude.Program.{Reply}
use kubernetes_cluster_monit.Prelude.Text.{Text}

drop-suffix : {A : Type 0} (n : ℕ) (xs : List A) → (front : List A) × (xs ≡ front ++ drop n xs)
drop-suffix zero xs = ([], refl)
drop-suffix (suc n) [] = ([], refl)
drop-suffix (suc n) (x ∷ xs) = let rest = drop-suffix n xs in (x ∷ rest.0, ap (◌∷◌ x) rest.1)

-- The sent logs are the last of the decoded ones, and as many as there are, up to `n`.
pub record IsTail {A : Type 0} (n : ℕ) (logs sent : List A) : Type 0 where
  pub front : List A
  pub suffix : logs ≡ front ++ sent
  pub at_most : length sent ≤ n
  pub all_or_n : (sent ≡ logs) ⊎ (length sent ≡ n)

start_of_pos :
    (len : ℕ) (tail : Text) (n : ℕ) → atoi tail ≡ some (pos n) → start_of len (some tail) ≡ len - n
unfolding start_of
start_of_pos len tail n e = rw (e, start_of) (ground arith)

-- A negative number puts the beginning behind the end.
start_of_negsuc :
    (len : ℕ) (tail : Text) (n : ℕ)
    → atoi tail ≡ some (negsuc n)
    → len + suc n < int_limit
    → len < start_of len (some tail)
unfolding start_of
start_of_negsuc len tail n e l = rw (e, start_of) (ground arith)

-- A number so low that the difference does not fit 64 bits is taken for one above the length.
start_of_low :
    (len : ℕ) (tail : Text) (n : ℕ)
    → atoi tail ≡ some (negsuc n)
    → len < int_limit
    → int_limit ≤ len + suc n
    → start_of len (some tail) ≡ 0
unfolding start_of
start_of_low len tail n e l o = rw (e, start_of) (ground (arith, atoi_bound tail n e))

IsTail-drop : {A : Type 0} (n : ℕ) (logs : List A) → IsTail n logs (drop (length logs - n) logs)
IsTail-drop n logs = record {
  front = (drop-suffix (length logs - n) logs).0;
  suffix = (drop-suffix (length logs - n) logs).1;
  at_most = omega (arith, length-drop (length logs - n) logs);
  all_or_n = elim (Bool-cases (leb n (length logs))) [
    | inl e ↦ inr (ground (arith, length-drop (length logs - n) logs))
    | inr e ↦ inl (ap (λ k. drop k logs) (none_left e))
  ];
}
  where
    none_left : leb n (length logs) ≡ false → length logs - n ≡ 0
    none_left e = ground arith

slice_from-drop :
    {A : Type 0} (n : ℕ) (xs : List A) → n ≤ length xs → slice_from n xs ≡ some (drop n xs)
unfolding slice_from
slice_from-drop n xs l = ground arith

slice_from-beyond : {A : Type 0} (n : ℕ) (xs : List A) → length xs < n → slice_from n xs ≡ none
unfolding slice_from
slice_from-beyond n xs l = ground arith

module _ (decode : Text → Reply (List LogInfo)) (file : Reply Text) where
  abbrev pub decoded : List LogInfo
  decoded = (decode (array_text file.value)).value

  -- With `tail` a number n from 0 on, the last n of the logs in the file are sent, or all of them
  -- where there are fewer.
  pub retrieve_logs-IsTail :
      (tail : Text) (n : ℕ)
      → atoi tail ≡ some (pos n)
      → (sent : List LogInfo) × (retrieve_logs decode file (some tail) ≡ some sent)
        × IsTail n decoded sent
  unfolding retrieve_logs
  retrieve_logs-IsTail tail n e = (
    drop (length decoded - n) decoded,
    ap (λ v. slice_from v decoded) (start_of_pos (length decoded) tail n e)
        ∙ slice_from-drop (length decoded - n) decoded (omega arith),
    IsTail-drop n decoded,
  )

  -- With no `tail`, and with one that is not a number, all logs are sent.
  pub retrieve_logs-all :
      (tail : Option Text)
      → ((t : Text) → tail ≡ some t → atoi t ≡ none)
      → retrieve_logs decode file tail ≡ some decoded
  unfolding retrieve_logs start_of slice_from
  retrieve_logs-all none e = slice_from-drop 0 decoded (omega arith)
  retrieve_logs-all (some t) e = rw (e t refl, start_of) (slice_from-drop 0 decoded (omega arith))

  retrieve_logs-negative :
      (tail : Text) (n : ℕ)
      → atoi tail ≡ some (negsuc n)
      → length decoded + suc n < int_limit
      → retrieve_logs decode file (some tail) ≡ none
  unfolding retrieve_logs
  retrieve_logs-negative tail n e l =
      slice_from-beyond _ decoded (start_of_negsuc (length decoded) tail n e l)

  retrieve_logs-low :
      (tail : Text) (n : ℕ)
      → atoi tail ≡ some (negsuc n)
      → length decoded < int_limit
      → int_limit ≤ length decoded + suc n
      → retrieve_logs decode file (some tail) ≡ some decoded
  unfolding retrieve_logs
  retrieve_logs-low tail n e l o =
      ap (λ v. slice_from v decoded) (start_of_low (length decoded) tail n e l o)
      ∙ slice_from-drop 0 decoded (omega arith)

  -- The value of `tail` is a number below 0, and what is left when it is taken from the number of
  -- logs fits 64 bits.
  abbrev pub IsNegative : Option Text → Type 0
  IsNegative none = ⊥
  IsNegative (some t) = (n : ℕ) × (atoi t ≡ some (negsuc n)) × (length decoded + suc n < int_limit)

  not_sent :
      (tail : Option Text) (sent : List LogInfo)
      → retrieve_logs decode file tail ≡ some sent
      → retrieve_logs decode file tail ≡ none
      → IsNegative tail
  not_sent tail sent s e = absurd (cc)

  -- The handler panics exactly if `tail` is a negative number for which the difference from the
  -- number of the logs fits 64 bits; the number of logs does.
  pub retrieve_logs-none_iff :
      (tail : Option Text)
      → length decoded < int_limit
      → (retrieve_logs decode file tail ≡ none) ↔ IsNegative tail
  retrieve_logs-none_iff none l =
      (not_sent none decoded (retrieve_logs-all none (λ t e. cc)), λ i. absurd i)
  retrieve_logs-none_iff (some t) l =
      (by_value (atoi t) refl, λ (n, e, o). retrieve_logs-negative t n e o)
    where
      by_value :
          (v : Option ℤ)
          → atoi t ≡ v
          → retrieve_logs decode file (some t) ≡ none
          → IsNegative (some t)
      by_value none e = not_sent (some t) decoded (retrieve_logs-all (some t) (λ t' same. cc))
      by_value (some (pos n)) e =
          let tail = retrieve_logs-IsTail t n e in not_sent (some t) tail.0 tail.1
      by_value (some (negsuc n)) e = elim (Bool-cases (ltb (length decoded + suc n) int_limit)) [
        | inl f ↦ λ x. (n, e, ground arith)
        | inr f ↦ not_sent (some t) decoded (retrieve_logs-low t n e l (ground arith))
      ]
