-- ===== src/Sidecar/Loop/Pauses.antt =====
-- The pause between two rounds, from the number that the policy asks for.
use kubernetes_cluster_monit.Controller.Policy.{log_frequency_text}
use kubernetes_cluster_monit.Keys.{log_frequency_key}
use kubernetes_cluster_monit.Prelude.{
  ℕ, suc, ◌+◌, ◌*◌, ◌≤◌, ◌<◌, ◌≡◌, ap, ◌∙◌, inl, inr, Option, some, arith, ◌==◌, if◌then◌else◌,
  Bool-cases,
}
use kubernetes_cluster_monit.Prelude.Dict.{Dict, get}
use kubernetes_cluster_monit.Prelude.Int.{ℤ, pos, negsuc, nanoseconds}
use kubernetes_cluster_monit.Prelude.Number.{itoa_nat, itoa, int_limit}
use kubernetes_cluster_monit.Prelude.Text.{Text}
use kubernetes_cluster_monit.Sidecar.Health.{sleep_duration, sleep_duration-some}

-- The numbers of seconds whose nanoseconds fit into 64 bits.
abbrev pub second_limit : ℕ
second_limit = 9223372036

-- The pause in nanoseconds that a policy asks for: its seconds, 10 for 0. A negative number asks for a
-- negative pause.
abbrev pub asked_pause : ℤ → ℤ
asked_pause (pos n) = if n == 0 then pos 10000000000 else pos (n * 1000000000)
asked_pause (negsuc n) = negsuc (n * 1000000000 + 999999999)

abbrev pub magnitude : ℤ → ℕ
magnitude (pos n) = n
magnitude (negsuc n) = suc n

nanoseconds-pos : (n : ℕ) → n ≤ second_limit → nanoseconds (pos n) ≡ pos (n * 1000000000)
unfolding nanoseconds
nanoseconds-pos n l = ground arith

nanoseconds-negsuc :
    (n : ℕ) → suc n ≤ second_limit → nanoseconds (negsuc n) ≡ negsuc (n * 1000000000 + 999999999)
unfolding nanoseconds
nanoseconds-negsuc n l = ground arith

abbrev pub asked_seconds : ℤ → ℤ
asked_seconds (pos n) = if n == 0 then pos 10 else pos n
asked_seconds (negsuc n) = negsuc n

parse_int-log_frequency_text :
    (parse_int : Text → Option ℤ) (f : ℤ)
    → ((v : ℤ) → magnitude v < int_limit → parse_int (itoa v) ≡ some v)
    → magnitude f ≤ second_limit
    → parse_int (log_frequency_text f) ≡ some (asked_seconds f)
unfolding log_frequency_text itoa itoa_nat
parse_int-log_frequency_text parse_int (pos n) reads l = elim (Bool-cases (n == 0)) [
  | inl z ↦ rw z (reads (pos 10) (omega arith))
  | inr z ↦ rw z (reads (pos n) (omega arith))
]
parse_int-log_frequency_text parse_int (negsuc n) reads l = reads (negsuc n) (omega arith)

pub nanoseconds-asked :
    (f : ℤ) → magnitude f ≤ second_limit → nanoseconds (asked_seconds f) ≡ asked_pause f
nanoseconds-asked (pos n) l = elim (Bool-cases (n == 0)) [
  | inl z ↦ rw z (nanoseconds-pos 10 (omega arith))
  | inr z ↦ rw z (nanoseconds-pos n l)
]
nanoseconds-asked (negsuc n) l = nanoseconds-negsuc n l

-- The pause of the sidecar is what the policy asks for, where its number of seconds is at most 9223372036
-- in magnitude: so many seconds, 10 for 0, and a negative pause, which is none at all, for a negative
-- number. The environment has the text that the controller writes for the number, and reading what is
-- printed of a 64-bit number gives the number.
pub nanoseconds-log_frequency_text :
    (parse_int : Text → Option ℤ) (env : Dict) (f : ℤ)
    → ((v : ℤ) → magnitude v < int_limit → parse_int (itoa v) ≡ some v)
    → get log_frequency_key env ≡ log_frequency_text f
    → magnitude f ≤ second_limit
    → nanoseconds (sleep_duration parse_int env) ≡ asked_pause f
nanoseconds-log_frequency_text parse_int env f reads e l =
    ap nanoseconds (
      sleep_duration-some parse_int env (asked_seconds f)
        (ap parse_int e ∙ parse_int-log_frequency_text parse_int f reads l))
    ∙ nanoseconds-asked f l
