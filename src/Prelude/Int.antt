-- ===== src/Prelude/Int.antt =====
-- Signed integers over the native numbers: what Go's `int` stands for before it wraps.
use Prim.Native.Nat.{ℕ, suc, ◌-◌, ◌*◌, ◌%◌}
use kubernetes_cluster_monit.Prelude.Tests.{ltb, leb, if◌then◌else◌}

-- `negsuc n` is -(n + 1).
pub data ℤ : Type 0 where
  pos : ℕ → ℤ
  negsuc : ℕ → ℤ

abbrev pub pos_part : ℤ → ℕ
pos_part (pos n) = n
pos_part (negsuc n) = 0

abbrev pub neg_part : ℤ → ℕ
neg_part (pos n) = 0
neg_part (negsuc n) = suc n

-- a - b, as an integer.
abbrev pub sub_ℕ : ℕ → ℕ → ℤ
sub_ℕ a b = if leb b a then pos (a - b) else negsuc (b - a - 1)

-- A 64-bit pattern as an `int64`.
abbrev pub as_int64 : ℕ → ℤ
as_int64 u = if ltb u 9223372036854775808 then pos u else negsuc (18446744073709551615 - u)

-- `time.Duration(v) * time.Second`, which wraps.
unfoldable pub nanoseconds : ℤ → ℤ
nanoseconds (pos n) = as_int64 (n * 1000000000 % 18446744073709551616)
nanoseconds (negsuc n) =
    as_int64
      ((18446744073709551616 - suc n * 1000000000 % 18446744073709551616) % 18446744073709551616)
