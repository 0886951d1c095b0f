-- ===== src/Logger/Collector/Lines.antt =====
-- `processLine` ends on every line.
use kubernetes_cluster_monit.Logger.Collector.{
  Pair, quoted, unquoted, read_value, read_pair, out_of_fuel, process_from, process_line,
}
use kubernetes_cluster_monit.Prelude.{
  ℕ, zero, suc, ◌+◌, ◌≤◌, ◌<◌, ◌≡◌, subst, ◌≢◌, inl, inr, some, [], ◌∷◌, arith, ◌==◌, Bool-cases,
  Option-cases, length, take, drop, length-drop,
}
use kubernetes_cluster_monit.Prelude.Dict.{Dict, insert}
use kubernetes_cluster_monit.Prelude.Text.{Text, index, index-lt, trim_space}

quoted-rest : (key s : Text) (p : Pair) → quoted key s ≡ some p → length p.rest ≤ length s
unfolding quoted
quoted-rest key s p e = elim (Option-cases (index b'"' s)) [
  | inl n ↦ ground arith
  | inr (j, i) ↦ ground (arith, length-drop (j + 1) s)
]

unquoted-rest : (key s : Text) → length (unquoted key s).rest ≤ length s
unfolding unquoted
unquoted-rest key s = elim (Option-cases (index b' ' s)) [
  | inl n ↦ ground arith
  | inr (j, i) ↦ ground (arith, length-drop (j + 1) s)
]

read_value-rest : (key s : Text) (p : Pair) → read_value key s ≡ some p → length p.rest ≤ length s
unfolding read_value
read_value-rest key [] p e = cc
read_value-rest key (c ∷ s) p e = elim (Bool-cases (c == b'"')) [
  | inl q ↦ omega (arith, quoted-rest key s p (rw (q, read_value) at e))
  | inr q ↦
      let same : unquoted key (c ∷ s) ≡ p = cc (rw (q, read_value) at e) in
      subst (λ (o : Pair). length o.rest ≤ suc (length s)) same (unquoted-rest key (c ∷ s))
]

-- Every round that does not panic leaves fewer bytes.
read_pair-rest :
    (s : Text) (i : ℕ) (p : Pair)
    → index b'=' s ≡ some i
    → read_pair s i ≡ some p
    → length p.rest < length s
unfolding read_pair
read_pair-rest s i p found e = omega (
  arith,
  read_value-rest (trim_space (take i s)) (drop (i + 1) s) p e,
  length-drop (i + 1) s,
  index-lt b'=' s i found,
)

process_from-total :
    (fuel : ℕ) (s : Text) (m : Dict) → length s < fuel → process_from fuel s m ≢ out_of_fuel
unfolding process_from
process_from-total zero s m l = absurd (omega arith)
process_from-total (suc fuel) s m l = elim (Option-cases (index b'=' s)) [
  | inl n ↦ ground arith
  | inr (i, found) ↦ elim (Option-cases (read_pair s i)) [
    | inl n ↦ ground arith
    | inr (p, r) ↦
        let less = read_pair-rest s i p found r in
        let ended = process_from-total fuel p.rest (insert p.key p.value m) (omega arith) in
        ground (arith, ended)
  ]
]

-- Reading a line always ends: with a map, or with the panic of an index out of range.
pub process_line-total : (s : Text) → process_line s ≢ out_of_fuel
unfolding process_line
process_line-total s = process_from-total (suc (length s)) s [] (omega arith)
