-- ===== src/Logger/Collector/Checks/ReadBack.antt =====
-- The collector reads the lines that the sidecar logs.
use kubernetes_cluster_monit.Logger.Collector.{
  fields, process_line, set_field, set_fields, add_to_log,
}
use kubernetes_cluster_monit.Logger.Collector.Checks.{
  is_plain_byte, is_plain, field_of, IsTextFormat, IsReadable, info_of,
}
use kubernetes_cluster_monit.Logger.Collector.Fields.{
  not_quote_first, IsField, value_text, field_text, fields_text,
}
use kubernetes_cluster_monit.Logger.Collector.RoundTrip.{is_last, process_line-fields_text}
use kubernetes_cluster_monit.Logger.Collector.Rounds.{add_lines}
use kubernetes_cluster_monit.Logger.Entry.{LogInfo}
use kubernetes_cluster_monit.Prelude.{
  ℕ, ◌≡◌, refl, sym, ap, ◌∙◌, inl, inr, Bool, true, false, some, List, [], ◌∷◌, ◌++◌, map,
  append-nil, append_assoc, arith, ◌==◌, Bool-cases, All,
}
use kubernetes_cluster_monit.Prelude.Dict.{Dict, lookup, insert}
use kubernetes_cluster_monit.Prelude.Number.{itoa_nat}
use kubernetes_cluster_monit.Prelude.Number.RoundTrip.{itoa_nat-all}
use kubernetes_cluster_monit.Prelude.Text.{
  replace, Text, codes, text_eq, has_no, replace-Lacks, has_no-Lacks, has_no-append, trim_left,
  trim_right, is_space, trim_space,
}
use kubernetes_cluster_monit.Sidecar.Health.{LogStruct}
use kubernetes_cluster_monit.Sidecar.Log.{log_fields, log_message, Formatter, logged_line}

is_plain-has_no_quote : (v : Text) → is_plain v ≡ true → has_no b'"' v ≡ true
is_plain-has_no_quote [] e = refl
is_plain-has_no_quote (c ∷ v) e = ground (arith, is_plain-has_no_quote v)

is_plain-has_no_backslash : (v : Text) → is_plain v ≡ true → has_no b'\\' v ≡ true
is_plain-has_no_backslash [] e = refl
is_plain-has_no_backslash (c ∷ v) e = ground (arith, is_plain-has_no_backslash v)

not_quote_first-has_no : (v : Text) → has_no b'"' v ≡ true → not_quote_first v ≡ true
not_quote_first-has_no [] e = refl
not_quote_first-has_no (c ∷ v) e = ground arith

module _ {f : Formatter} (format : IsTextFormat f) where
  field_of-IsField :
      (k v : Text)
      → has_no b'=' k ≡ true
      → trim_space k ≡ k
      → is_plain v ≡ true
      → IsField (field_of f (k, v))
  field_of-IsField k v e t p =
      let q = is_plain-has_no_quote v p in
      record {
        key_is = e;
        key_trimmed = t;
        value_is = elim (Bool-cases (f.needs_quotes v)) [
          | inl n ↦ rw n q
          | inr n ↦ rw n (rw ((format.safe_unquoted v n).0, not_quote_first-has_no v q) refl)
        ];
      }

-- The lines are without escapes.
value_text-has_no :
    (b : ℕ) (q : Bool) (v t : Text)
    → (b'"' == b) ≡ false
    → has_no b v ≡ true
    → has_no b t ≡ true
    → has_no b (value_text q v t) ≡ true
value_text-has_no b true v t e h k = rw e (has_no-append b v (b'"' ∷ t) h (rw e k))
value_text-has_no b false v t e h k = has_no-append b v t h k

field_text-has_no :
    (k v t : Text) (q : Bool)
    → has_no b'\\' k ≡ true
    → is_plain v ≡ true
    → has_no b'\\' t ≡ true
    → has_no b'\\' (field_text (record { quotes = q; key = k; value = v }) t) ≡ true
field_text-has_no k v t q e p h =
    has_no-append b'\\' k (b'=' ∷ value_text q v t) e
      (value_text-has_no b'\\' q v t refl (is_plain-has_no_backslash v p) h)

-- A field whose line goes on, and which the collector reads back.
abbrev IsPlainField : Formatter → Text × Text → Type 0
IsPlainField f kv =
    (has_no b'=' kv.0 ≡ true)
    × (has_no b'\\' kv.0 ≡ true)
    × (trim_space kv.0 ≡ kv.0)
    × (is_plain kv.1 ≡ true)

fields_text-has_no :
    (f : Formatter) (m : Dict) (t : Text)
    → All (IsPlainField f) m
    → has_no b'\\' t ≡ true
    → has_no b'\\' (fields_text (map (field_of f) m) t) ≡ true
fields_text-has_no f [] t p h = h
fields_text-has_no f ((k, v) ∷ m) t ((e, b, w, i), p) h =
    field_text-has_no k v (b' ' ∷ fields_text (map (field_of f) m) t) (f.needs_quotes v) b i
      (fields_text-has_no f m t p h)

-- The fields in front of the address.
abbrev front_fields : Text → LogStruct → Dict
front_fields time l =
    (codes "time", time)
    ∷ (codes "level", codes "info")
    ∷ (codes "msg", log_message)
    ∷ (codes "container", l.container_name)
    ∷ (codes "pod", l.pod_name)
    ∷ (codes "request", l.request)
    ∷ (codes "statusMsg", l.status)
    ∷ (codes "statuscode", itoa_nat l.status_code)
    ∷ (codes "type", codes "liveness-check")
    ∷ []

itoa_nat-is_plain : (n : ℕ) → is_plain (itoa_nat n) ≡ true
itoa_nat-is_plain n = itoa_nat-all is_plain_byte (λ d l. ground arith) n

front_fields-plain :
    (f : Formatter) (time : Text) (l : LogStruct)
    → IsReadable time l
    → All (IsPlainField f) (front_fields time l)
unfolding trim_space trim_left trim_right is_space
front_fields-plain f time l r = (
  (refl, refl, refl, r.time_is),
  (
    (refl, refl, refl, refl),
    (
      (refl, refl, refl, refl),
      (
        (refl, refl, refl, r.container_is),
        (
          (refl, refl, refl, r.pod_is),
          (
            (refl, refl, refl, r.request_is),
            (
              (refl, refl, refl, r.status_is),
              ((refl, refl, refl, itoa_nat-is_plain l.status_code), ((refl, refl, refl, refl), tt)),
            ),
          ),
        ),
      ),
    ),
  ),
)

module _ {f : Formatter} (format : IsTextFormat f) where
  fields_are : (m : Dict) → All (IsPlainField f) m → All IsField (map (field_of f) m)
  fields_are [] p = tt
  fields_are ((k, v) ∷ m) ((e, b, w, i), p) = (field_of-IsField format k v e w i, fields_are m p)

  logged_line-fields_text :
      (time : Text) (l : LogStruct)
      → IsReadable time l
      → logged_line f time l
        ≡ fields_text
            (map (field_of f) (front_fields time l))
            (field_text (field_of f (codes "url", l.url)) [])
  unfolding log_fields
  logged_line-fields_text time l r = format.writes time (log_fields l) log_message refl (
      rw
        (
          r.time_is,
          r.container_is,
          r.pod_is,
          r.request_is,
          r.status_is,
          itoa_nat-is_plain l.status_code,
          r.url_is,
        )
        refl)

  process_line-logged_line :
      (time : Text) (l : LogStruct)
      → IsReadable time l
      → process_line (replace (b'\\' ∷ []) [] (logged_line f time l))
        ≡ fields (front_fields time l ++ (codes "url", l.url) ∷ [])
  unfolding insert text_eq trim_space trim_left trim_right is_space
  process_line-logged_line time l r =
      let front = map (field_of f) (front_fields time l) in
      let last = field_of f (codes "url", l.url) in
      let plain = front_fields-plain f time l r in
      let no_escape : has_no b'\\' (fields_text front (field_text last [])) ≡ true =
        fields_text-has_no f (front_fields time l) (field_text last []) plain
          (field_text-has_no (codes "url") l.url [] (f.needs_quotes l.url) refl r.url_is refl) in
      ap (λ t. process_line (replace (b'\\' ∷ []) [] t)) (logged_line-fields_text time l r)
      ∙ ap process_line (
          replace-Lacks (b'\\' ∷ []) [] (fields_text front (field_text last []))
            (has_no-Lacks b'\\' [] (fields_text front (field_text last [])) no_escape))
      ∙ process_line-fields_text front last (fields_are (front_fields time l) plain)
          (field_of-IsField format (codes "url") l.url refl refl r.url_is)
          (is_last-url (f.needs_quotes l.url) refl)
    where
      is_last-url :
          (q : Bool) → f.needs_quotes l.url ≡ q → is_last (field_of f (codes "url", l.url)) ≡ true
      is_last-url true e = rw e refl
      is_last-url false e = rw e (rw (r.has_url, (format.safe_unquoted l.url e).1) refl)

  add_lines-logged_line :
      (time : Text) (l : LogStruct) (lines : List Text) (logs : List LogInfo)
      → IsReadable time l
      → add_lines (logged_line f time l ∷ lines) logs
        ≡ add_lines lines (logs ++ info_of time l ∷ [])
  unfolding add_to_log set_fields set_field lookup text_eq add_lines
  add_lines-logged_line time l lines logs r = rw (process_line-logged_line time l r, add_lines) refl

  -- Whatever the sidecar logs of its health checks, the collector reads back: from the lines of the
  -- log it takes one entry for each check, in their order, with the time, the container, the pod, the
  -- address, and the status of the check. The texts are plain, and no address is empty.
  pub add_lines-checks :
      (checks : List (Text × LogStruct)) (logs : List LogInfo)
      → All (λ e. IsReadable e.0 e.1) checks
      → add_lines (map (λ e. logged_line f e.0 e.1) checks) logs
        ≡ some (logs ++ map (λ e. info_of e.0 e.1) checks)
  unfolding add_lines
  add_lines-checks [] logs r = ap some (sym (append-nil logs))
  add_lines-checks ((time, l) ∷ checks) logs r =
      add_lines-logged_line time l (map (λ e. logged_line f e.0 e.1) checks) logs r.0
      ∙ add_lines-checks checks (logs ++ info_of time l ∷ []) r.1
      ∙ ap some (append_assoc logs (info_of time l ∷ []) (map (λ e. info_of e.0 e.1) checks))
