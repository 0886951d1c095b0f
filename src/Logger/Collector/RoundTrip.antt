-- ===== src/Logger/Collector/RoundTrip.antt =====
-- `processLine` on whole lines of fields.
use kubernetes_cluster_monit.Logger.Collector.{
  quoted, unquoted, read_value, fields, panicked, process_from, process_line,
}
use kubernetes_cluster_monit.Logger.Collector.Fields.{
  Field, not_quote_first, IsField, value_text, field_text, padding, process_from-key,
  process_from-quoted, fields_text, insert_all, pad_behind, process_from-fields,
}
use kubernetes_cluster_monit.Prelude.{
  ℕ, suc, ◌+◌, ◌-◌, ◌≤◌, ◌≡◌, refl, ap, ◌∙◌, Bool, true, false, not, ◌&&◌, ◌||◌, none, some, List,
  [], ◌∷◌, ◌++◌, append-nil, arith, ◌==◌, if◌then◌else◌, length, length-append, All,
}
use kubernetes_cluster_monit.Prelude.Dict.{Dict, insert}
use kubernetes_cluster_monit.Prelude.Text.{Text, text_eq, index, has_no, index-has_no, trim_space}

-- The fields take at least one byte each, with the blanks.
fields_text-length : (xs : List Field) (t : Text) → length xs + length t ≤ length (fields_text xs t)
fields_text-length [] t = omega arith
fields_text-length (x ∷ xs) t = omega (
  arith,
  fields_text-length xs t,
  length-append x.key (b'=' ∷ value_text x.quotes x.value (b' ' ∷ fields_text xs t)),
  value_text-length x.quotes x.value (b' ' ∷ fields_text xs t),
)
  where
    value_text-length : (q : Bool) (v t : Text) → length t ≤ length (value_text q v t)
    value_text-length true v t = omega (arith, length-append v (b'"' ∷ t))
    value_text-length false v t = omega (arith, length-append v t)

-- The fields in front are read with fuel left for two rounds more.
process_line-front :
    (xs : List Field) (t : Text)
    → All IsField xs
    → 1 ≤ length t
    → (g : ℕ) × (process_line (fields_text xs t)
        ≡ process_from (suc (suc g)) (padding (pad_behind false xs) ++ t) (insert_all xs []))
unfolding process_line
process_line-front xs t v l =
    let g = length (fields_text xs t) - length xs - 1 in
    let enough : suc (length (fields_text xs t)) ≡ length xs + suc (suc g) =
      omega (arith, fields_text-length xs t) in
    (
      g,
      ap (λ n. process_from n (fields_text xs t) []) enough
          ∙ process_from-fields xs false t (suc (suc g)) [] v,
    )

-- The last value, when it has no quotes, is not empty and has no equality sign.
abbrev pub is_last : Field → Bool
is_last f = f.quotes || not (text_eq f.value []) && has_no b'=' f.value

read_value-end :
    (k v : Text)
    → text_eq v [] ≡ false
    → has_no b' ' v ≡ true
    → not_quote_first v ≡ true
    → read_value k v ≡ some (record { key = k; value = v; rest = v })
unfolding read_value text_eq
read_value-end k [] n h q = cc
read_value-end k (c ∷ v) n h q =
    let other : (c == b'"') ≡ false = ground arith in
    rw (other, read_value) (unfold unquoted in rw (index-has_no b' ' (c ∷ v) h, unquoted))

process_from-end :
    (g : ℕ) (v : Text) (m : Dict) → has_no b'=' v ≡ true → process_from (suc g) v m ≡ fields m
unfolding process_from
process_from-end g v m h = rw (index-has_no b'=' v h, process_from)

process_from-last :
    (pad : Bool) (f : Field) (g : ℕ) (m : Dict)
    → IsField f
    → is_last f ≡ true
    → process_from (suc (suc g)) (padding pad ++ field_text f []) m
      ≡ fields (insert f.key f.value m)
process_from-last pad f g m v l = by_kind f.quotes v.value_is l
  where
    by_kind :
        (quotes : Bool)
        → (if quotes then has_no b'"' f.value else (has_no b' ' f.value && not_quote_first f.value))
          ≡ true
        → (quotes || not (text_eq f.value []) && has_no b'=' f.value) ≡ true
        → process_from
            (suc (suc g))
            (padding pad ++ (f.key ++ b'=' ∷ value_text quotes f.value []))
            m
          ≡ fields (insert f.key f.value m)
    by_kind true e l =
        process_from-quoted pad f.key f.value [] (suc g) m v.key_is v.key_trimmed e
        ∙ unfold process_from index in refl
    by_kind false e l = rw (append-nil f.value) (
        process_from-key pad f.key f.value (suc g) m v.key_is v.key_trimmed
        ∙ rw (read_value-end f.key f.value (ground arith) (ground arith) (ground arith))
            (process_from-end g f.value (insert f.key f.value m) (ground arith)))

-- A line of fields, with a blank between each two, is read as the map of these fields; a key that
-- comes again takes its last value. No key holds an equality sign or has white space at its ends, no
-- value in quotes holds a quote, and no other one holds a blank or begins with a quote; the last
-- value, when it has no quotes, holds no equality sign and is not empty.
pub process_line-fields_text :
    (xs : List Field) (last : Field)
    → All IsField xs
    → IsField last
    → is_last last ≡ true
    → process_line (fields_text xs (field_text last []))
      ≡ fields (insert last.key last.value (insert_all xs []))
process_line-fields_text xs last v w l =
    let bytes : 1 ≤ length (field_text last []) =
      omega (arith, length-append last.key (b'=' ∷ value_text last.quotes last.value [])) in
    let front = process_line-front xs (field_text last []) v bytes in
    front.1 ∙ process_from-last (pad_behind false xs) last front.0 (insert_all xs []) w l

-- What is behind the last equality sign of a line that is cut off: nothing, or a quote that is not
-- closed.
pub data Cut : Text → Type 0 where
  nothing : Cut []
  open_quote : (v : Text) → has_no b'"' v ≡ true → Cut (b'"' ∷ v)

read_value-Cut : (k t : Text) → Cut t → read_value k t ≡ none
unfolding read_value quoted
read_value-Cut k _ nothing = refl
read_value-Cut k _ (open_quote v h) = rw (index-has_no b'"' v h, quoted)

-- A line that ends behind a key's equality sign, or inside a value in quotes, makes `processLine`
-- panic, whatever fields stand in front.
pub process_line-Cut :
    (xs : List Field) (k t : Text)
    → All IsField xs
    → has_no b'=' k ≡ true
    → trim_space k ≡ k
    → Cut t
    → process_line (fields_text xs (k ++ b'=' ∷ t)) ≡ panicked
process_line-Cut xs k t v h trimmed cut =
    let front =
      process_line-front xs (k ++ b'=' ∷ t) v (omega (arith, length-append k (b'=' ∷ t))) in
    front.1
    ∙ process_from-key (pad_behind false xs) k t (suc front.0) (insert_all xs []) h trimmed
    ∙ rw (read_value-Cut k t cut)
