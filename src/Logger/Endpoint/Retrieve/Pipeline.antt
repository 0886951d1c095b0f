-- ===== src/Logger/Endpoint/Retrieve/Pipeline.antt =====
-- The collector writes the log file, the endpoint reads it.
use kubernetes_cluster_monit.Controller.Selector.{is_comma}
use kubernetes_cluster_monit.Logger.Collector.Rounds.{chunk_text}
use kubernetes_cluster_monit.Logger.Endpoint.Retrieve.{
  newline, is_newline, is_escape, without_escapes, trim_end, array_text,
}
use kubernetes_cluster_monit.Prelude.{
  ℕ, ◌≡◌, refl, sym, ap, ◌∙◌, Bool, true, false, Option, none, some, List, [], ◌∷◌, ◌++◌, map,
  append_assoc, ◌==◌, if◌then◌else◌, All,
}
use kubernetes_cluster_monit.Prelude.Text.{
  replace, Text, text_eq, has_no, starts_with, Lacks, replace-Lacks, has_no-Lacks, has_no-append,
  join, trim_left, trim_right, is_space, trim_space, trim_right-append_all, trim_right-concat, Ends,
  trim_right-Ends, Ends-append,
}

-- The logs of one round as JSON objects, one behind the other, with what stands between the first
-- brace and the last.
abbrev pub objects : Text → Text
objects i = b'{' ∷ (i ++ b'}' ∷ [])

-- The objects have no escape in a text, and no two commas in a row.
pub record IsObjects (i : Text) : Type 0 where
  pub no_backslash : has_no b'\\' (objects i) ≡ true
  pub single_commas : Lacks (b',' ∷ b',' ∷ []) (objects i)

-- What `json.MarshalIndent` with empty prefix and indent writes for a round; `none` for no logs.
abbrev pub marshalled : Option Text → Text
marshalled none = b'[' ∷ b']' ∷ []
marshalled (some i) = b'[' ∷ newline ∷ (objects i ++ newline ∷ b']' ∷ [])

-- The rounds that had logs.
abbrev pub present : List (Option Text) → List Text
present [] = []
present (none ∷ rs) = present rs
present (some i ∷ rs) = i ∷ present rs

-- The file after these rounds.
abbrev pub file_text : List (Option Text) → Text
file_text [] = []
file_text (r ∷ rs) = chunk_text (marshalled r) ++ file_text rs

-- The separator that is left between the rounds.
abbrev pub comma_line : Text
comma_line = b',' ∷ newline ∷ []

abbrev trailing : List Text → Text
trailing [] = []
trailing (i ∷ is) = objects i ++ (b',' ∷ newline ∷ trailing is)

chunk_text-none : chunk_text (marshalled none) ≡ []
unfolding chunk_text trim_right trim_left trim_space text_eq
chunk_text-none = refl

objects-Ends : (p : ℕ → Bool) (i : Text) → p b'}' ≡ false → Ends p (objects i)
objects-Ends p i h = (b'{' ∷ i, b'}', refl, h)

trimmed_marshalled :
    (i : Text)
    → trim_space (trim_left (λ c. c == b'[') (trim_right (λ c. c == b']') (marshalled (some i))))
      ≡ objects i
unfolding trim_space trim_left is_space
trimmed_marshalled i =
    ap (λ t. trim_space (trim_left (λ c. c == b'[') t))
      (ap (λ t. trim_right (λ c. c == b']') (b'[' ∷ newline ∷ t))
          (sym (append_assoc (objects i) (newline ∷ []) (b']' ∷ [])))
        ∙ trim_right-append_all (λ c. c == b']') (b'[' ∷ newline ∷ (objects i ++ newline ∷ []))
            (b']' ∷ []) refl
        ∙ trim_right-concat (λ c. c == b']') (b'[' ∷ newline ∷ objects i) newline refl)
    ∙ trim_right-append_all is_space (objects i) (newline ∷ []) refl
    ∙ trim_right-Ends is_space (objects i) (objects-Ends is_space i refl)

chunk_text-some : (i : Text) → chunk_text (marshalled (some i)) ≡ objects i ++ comma_line
unfolding chunk_text text_eq
chunk_text-some i = ap (λ t. if text_eq t [] then t else t ++ comma_line) (trimmed_marshalled i)

file_text-trailing : (rs : List (Option Text)) → file_text rs ≡ trailing (present rs)
file_text-trailing [] = refl
file_text-trailing (none ∷ rs) = rw chunk_text-none (file_text-trailing rs)
file_text-trailing (some i ∷ rs) =
    ap (λ t. t ++ file_text rs) (chunk_text-some i)
    ∙ append_assoc (objects i) comma_line (file_text rs)
    ∙ ap (λ t. objects i ++ (b',' ∷ newline ∷ t)) (file_text-trailing rs)

-- Behind a brace no pair of commas goes on.
Lacks-append :
    (s t : Text)
    → Lacks (b',' ∷ b',' ∷ []) (s ++ b'}' ∷ [])
    → Lacks (b',' ∷ b',' ∷ []) t
    → Lacks (b',' ∷ b',' ∷ []) ((s ++ b'}' ∷ []) ++ t)
unfolding starts_with
Lacks-append [] t l m = (refl, m)
Lacks-append (c ∷ []) t l m = (l.0, (refl, m))
Lacks-append (c ∷ d ∷ s) t l m = (l.0, Lacks-append (d ∷ s) t l.1 m)

trailing-has_no : (is : List Text) → All IsObjects is → has_no b'\\' (trailing is) ≡ true
trailing-has_no [] v = refl
trailing-has_no (i ∷ is) v =
    has_no-append b'\\' (objects i) (b',' ∷ newline ∷ trailing is) v.0.no_backslash
      (trailing-has_no is v.1)

trailing-Lacks : (is : List Text) → All IsObjects is → Lacks (b',' ∷ b',' ∷ []) (trailing is)
unfolding starts_with
trailing-Lacks [] v = tt
trailing-Lacks (i ∷ is) v =
    Lacks-append (b'{' ∷ i) (b',' ∷ newline ∷ trailing is) v.0.single_commas
      (refl, (refl, trailing-Lacks is v.1))

-- Nothing is replaced in the file.
without_escapes-trailing :
    (is : List Text) → All IsObjects is → without_escapes (trailing is) ≡ trailing is
without_escapes-trailing is v =
    let plain = has_no-Lacks b'\\' in
    ap (λ t. replace (b',' ∷ b',' ∷ []) (b',' ∷ []) (replace (b'\\' ∷ []) [] t))
      (replace-Lacks _ [] (trailing is) (plain (b'n' ∷ []) (trailing is) (trailing-has_no is v)))
    ∙ ap (replace (b',' ∷ b',' ∷ []) (b',' ∷ []))
        (replace-Lacks _ [] (trailing is) (plain [] (trailing is) (trailing-has_no is v)))
    ∙ replace-Lacks _ (b',' ∷ []) (trailing is) (trailing-Lacks is v)

abbrev pub joined : List Text → Text
joined is = join comma_line (map objects is)

trailing-joined : (i : Text) (is : List Text) → trailing (i ∷ is) ≡ joined (i ∷ is) ++ comma_line
unfolding join
trailing-joined i [] = refl
trailing-joined i (j ∷ is) = rw (trailing-joined j is) (simp append_assoc)

joined-Ends : (p : ℕ → Bool) (i : Text) (is : List Text) → p b'}' ≡ false → Ends p (joined (i ∷ is))
unfolding join
joined-Ends p i [] h = objects-Ends p i h
joined-Ends p i (j ∷ is) h =
    Ends-append p (objects i) _ (Ends-append p comma_line _ (joined-Ends p j is h))

trim_end-joined : (i : Text) (is : List Text) → trim_end (joined (i ∷ is)) ≡ joined (i ∷ is)
trim_end-joined i is =
    let kept = λ (p : ℕ → Bool) (h : p b'}' ≡ false).
      trim_right-Ends p (joined (i ∷ is)) (joined-Ends p i is h) in
    ap (λ t. trim_right is_comma (trim_right is_escape t)) (kept is_newline refl)
    ∙ ap (trim_right is_comma) (kept is_escape refl)
    ∙ kept is_comma refl

trim_end-trailing : (i : Text) (is : List Text) → trim_end (trailing (i ∷ is)) ≡ joined (i ∷ is)
trim_end-trailing i is =
    let text = joined (i ∷ is) in
    let comma = text ++ b',' ∷ [] in
    ap (λ t. trim_right is_comma (trim_right is_escape t))
      (ap (trim_right is_newline)
          (trailing-joined i is ∙ sym (append_assoc text (b',' ∷ []) (newline ∷ [])))
        ∙ trim_right-append_all is_newline comma (newline ∷ []) refl
        ∙ trim_right-concat is_newline text b',' refl)
    ∙ ap (trim_right is_comma) (trim_right-concat is_escape text b',' refl)
    ∙ trim_right-append_all is_comma text (b',' ∷ []) refl
    ∙ trim_right-Ends is_comma text (joined-Ends is_comma i is refl)

trim_left-joined :
    (i : Text) (is : List Text) → trim_left is_comma (joined (i ∷ is)) ≡ joined (i ∷ is)
unfolding join trim_left
trim_left-joined i [] = refl
trim_left-joined i (j ∷ is) = refl

array_text-trailing :
    (is : List Text) → All IsObjects is → array_text (trailing is) ≡ b'[' ∷ (joined is ++ b']' ∷ [])
array_text-trailing [] v = unfold array_text replace trim_right trim_left join in refl
array_text-trailing (i ∷ is) v =
    unfold array_text in
    ap (λ t. b'[' ∷ (trim_left is_comma t ++ b']' ∷ []))
      (ap (λ t. trim_end (trim_end t)) (without_escapes-trailing (i ∷ is) v)
        ∙ ap trim_end (trim_end-trailing i is)
        ∙ trim_end-joined i is)
    ∙ ap (λ t. b'[' ∷ (t ++ b']' ∷ [])) (trim_left-joined i is)

-- What the endpoint decodes is one JSON array: the objects of all rounds that had logs, in their
-- order, with a comma and a new line between the rounds, and nothing else. No text in the logs needs
-- an escape, and none has two commas in a row.
pub array_text-file_text :
    (rs : List (Option Text))
    → All IsObjects (present rs)
    → array_text (file_text rs) ≡ b'[' ∷ (joined (present rs) ++ b']' ∷ [])
array_text-file_text rs v =
    ap array_text (file_text-trailing rs) ∙ array_text-trailing (present rs) v
