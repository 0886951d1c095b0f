-- ===== src/Logger/Collector/Fields.antt =====
-- One field of a line, and fields with blanks between them, as `processLine` reads them.
use native.Mathlib.Numerals.{add-one}
use native.Mathlib.Nat.{zero-add}
use mathlib.Core.Path.{ap₂}
use kubernetes_cluster_monit.Logger.Collector.{
  quoted, unquoted, read_value, read_pair, panicked, process_from,
}
use kubernetes_cluster_monit.Prelude.{
  ℕ, suc, ◌+◌, ◌≡◌, refl, ap, ◌∙◌, Bool, true, false, not, ◌&&◌, none, some, List, [], ◌∷◌, ◌++◌,
  append_assoc, arith, ◌==◌, if◌then◌else◌, length, drop, take-length, All,
}
use kubernetes_cluster_monit.Prelude.Dict.{Dict, insert}
use kubernetes_cluster_monit.Prelude.Text.{Text, has_no, index-append, trim_space}

pub record Field : Type 0 where
  pub quotes : Bool
  pub key : Text
  pub value : Text

-- A value with no quotes does not begin with one.
abbrev pub not_quote_first : Text → Bool
not_quote_first [] = true
not_quote_first (c ∷ s) = not (c == b'"')

-- The key has no equality sign, and no white space at its ends; the value cannot end early.
pub record IsField (f : Field) : Type 0 where
  pub key_is : has_no b'=' f.key ≡ true
  pub key_trimmed : trim_space f.key ≡ f.key
  pub value_is :
      (if f.quotes then has_no b'"' f.value else (has_no b' ' f.value && not_quote_first f.value))
      ≡ true

abbrev pub value_text : Bool → Text → Text → Text
value_text true v t = b'"' ∷ (v ++ b'"' ∷ t)
value_text false v t = v ++ t

-- `f` in front of the text `t`.
abbrev pub field_text : Field → Text → Text
field_text f t = f.key ++ b'=' ∷ value_text f.quotes f.value t

-- The blank behind a quoted value is still there when the next key is read.
abbrev pub padding : Bool → Text
padding true = b' ' ∷ []
padding false = []

trim_space-padding : (pad : Bool) (k : Text) → trim_space (padding pad ++ k) ≡ trim_space k
unfolding trim_space
trim_space-padding true k = refl
trim_space-padding false k = refl

drop_past : (s : Text) (b : ℕ) (t : Text) → drop (length s + 1) (s ++ b ∷ t) ≡ t
drop_past s b t = rw (add-one (length s)) (drop_suc s)
  where
    drop_suc : (s : Text) → drop (suc (length s)) (s ++ b ∷ t) ≡ t
    drop_suc [] = refl
    drop_suc (c ∷ s) = drop_suc s

has_no-padding :
    (pad : Bool) (k : Text) → has_no b'=' k ≡ true → has_no b'=' (padding pad ++ k) ≡ true
has_no-padding true k h = h
has_no-padding false k h = h

read_pair_lem :
    (name t : Text) → read_pair (name ++ b'=' ∷ t) (length name) ≡ read_value (trim_space name) t
unfolding read_pair
read_pair_lem name t =
    ap₂ read_value (ap trim_space (take-length name (b'=' ∷ t))) (drop_past name b'=' t)

-- From the key on, a round reads the value.
pub process_from-key :
    (pad : Bool) (k t : Text) (f : ℕ) (m : Dict)
    → has_no b'=' k ≡ true
    → trim_space k ≡ k
    → process_from (suc f) (padding pad ++ (k ++ b'=' ∷ t)) m ≡ (elim (read_value k t) [
      | none ↦ panicked
      | some p ↦ process_from f p.rest (insert p.key p.value m)
    ])
unfolding process_from
process_from-key pad k t f m h trimmed =
    let name = padding pad ++ k in
    rw (← append_assoc (padding pad) k (b'=' ∷ t)) (
      rw (index-append b'=' name t (has_no-padding pad k h), process_from)
        (rw (read_pair_lem name t) (rw (trim_space-padding pad k ∙ trimmed))))

-- A field with quotes is read, and what is behind it is left.
pub process_from-quoted :
    (pad : Bool) (k v t : Text) (f : ℕ) (m : Dict)
    → has_no b'=' k ≡ true
    → trim_space k ≡ k
    → has_no b'"' v ≡ true
    → process_from (suc f) (padding pad ++ (k ++ b'=' ∷ b'"' ∷ (v ++ b'"' ∷ t))) m
      ≡ process_from f t (insert k v m)
process_from-quoted pad k v t f m h trimmed n =
    process_from-key pad k (b'"' ∷ (v ++ b'"' ∷ t)) f m h trimmed
    ∙ unfold read_value quoted in
      rw (index-append b'"' v t n) (rw (take-length v (b'"' ∷ t)) (rw (drop_past v b'"' t)))

-- A field with no quotes is read up to the blank.
unquoted-blank :
    (k v t : Text)
    → has_no b' ' v ≡ true
    → unquoted k (v ++ b' ' ∷ t) ≡ record { key = k; value = v; rest = t }
unfolding unquoted
unquoted-blank k v t n =
    rw (index-append b' ' v t n, unquoted)
      (λ i. record { key = k; value = take-length v (b' ' ∷ t) i; rest = drop_past v b' ' t i })

read_value-blank :
    (k v t : Text)
    → has_no b' ' v ≡ true
    → not_quote_first v ≡ true
    → read_value k (v ++ b' ' ∷ t) ≡ some (record { key = k; value = v; rest = t })
unfolding read_value
read_value-blank k [] t n q = ap some (unquoted-blank k [] t n)
read_value-blank k (c ∷ v) t n q =
    let other : (c == b'"') ≡ false = ground arith in
    rw (other, read_value) (ap some (unquoted-blank k (c ∷ v) t n))

process_from-blank :
    (pad : Bool) (k v t : Text) (f : ℕ) (m : Dict)
    → has_no b'=' k ≡ true
    → trim_space k ≡ k
    → has_no b' ' v ≡ true
    → not_quote_first v ≡ true
    → process_from (suc f) (padding pad ++ (k ++ b'=' ∷ (v ++ b' ' ∷ t))) m
      ≡ process_from f t (insert k v m)
process_from-blank pad k v t f m h trimmed n q =
    process_from-key pad k (v ++ b' ' ∷ t) f m h trimmed ∙ rw (read_value-blank k v t n q)

-- Each field with a blank behind it.
abbrev pub fields_text : List Field → Text → Text
fields_text [] t = t
fields_text (x ∷ xs) t = field_text x (b' ' ∷ fields_text xs t)

abbrev pub insert_all : List Field → Dict → Dict
insert_all [] m = m
insert_all (x ∷ xs) m = insert_all xs (insert x.key x.value m)

-- Whether a blank is left in front of what follows the fields.
abbrev pub pad_behind : Bool → List Field → Bool
pad_behind pad [] = pad
pad_behind pad (x ∷ xs) = pad_behind x.quotes xs

field-step :
    (pad : Bool) (x : Field) (t : Text) (f : ℕ) (m : Dict)
    → IsField x
    → process_from (suc f) (padding pad ++ field_text x (b' ' ∷ t)) m
      ≡ process_from f (padding x.quotes ++ t) (insert x.key x.value m)
field-step pad x t f m v = by_kind x.quotes v.value_is
  where
    by_kind :
        (quotes : Bool)
        → (if quotes then has_no b'"' x.value else (has_no b' ' x.value && not_quote_first x.value))
          ≡ true
        → process_from
            (suc f)
            (padding pad ++ (x.key ++ b'=' ∷ value_text quotes x.value (b' ' ∷ t)))
            m
          ≡ process_from f (padding quotes ++ t) (insert x.key x.value m)
    by_kind true e = process_from-quoted pad x.key x.value (b' ' ∷ t) f m v.key_is v.key_trimmed e
    by_kind false e =
        process_from-blank pad x.key x.value t f m v.key_is v.key_trimmed (ground arith)
          (ground arith)

pub process_from-fields :
    (xs : List Field) (pad : Bool) (t : Text) (f : ℕ) (m : Dict)
    → All IsField xs
    → process_from (length xs + f) (padding pad ++ fields_text xs t) m
      ≡ process_from f (padding (pad_behind pad xs) ++ t) (insert_all xs m)
process_from-fields [] pad t f m v = rw zero-add
process_from-fields (x ∷ xs) pad t f m v =
    ap (λ n. process_from n (padding pad ++ fields_text (x ∷ xs) t) m) (omega arith)
    ∙ field-step pad x (fields_text xs t) (length xs + f) m v.0
    ∙ process_from-fields xs x.quotes t f _ v.1
