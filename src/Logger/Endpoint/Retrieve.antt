-- ===== src/Logger/Endpoint/Retrieve.antt =====
-- `retrieveLogs` of `logger/endpoint/endpoint.go`: the log file is made a JSON array, and its last
-- entries are sent. Reading the file and decoding JSON are parameters.
pub mod Tail
pub mod Pipeline
pub mod Runs
use kubernetes_cluster_monit.Controller.Selector.{is_comma}
use kubernetes_cluster_monit.Logger.Entry.{LogInfo}
use kubernetes_cluster_monit.Prelude.{
  ℕ, suc, ◌+◌, ◌*◌, Bool, ◌||◌, Option, none, some, List, [], ◌∷◌, ◌++◌, ltb, leb, ◌==◌,
  if◌then◌else◌, length, drop,
}
use kubernetes_cluster_monit.Prelude.Int.{ℤ, pos, negsuc, pos_part, sub_ℕ}
use kubernetes_cluster_monit.Prelude.Number.{int_limit, atoi}
use kubernetes_cluster_monit.Prelude.Program.{Reply}
use kubernetes_cluster_monit.Prelude.Text.{replace, Text, trim_left, trim_right}

abbrev pub newline : ℕ
newline = 10

-- The cutset "\n".
abbrev pub is_newline : ℕ → Bool
is_newline c = c == newline

-- The cutset "\\n": a backslash, and the letter n.
abbrev pub is_escape : ℕ → Bool
is_escape c = c == b'\\' || c == b'n'

abbrev pub without_escapes : Text → Text
without_escapes text =
    replace (b',' ∷ b',' ∷ []) (b',' ∷ [])
      (replace (b'\\' ∷ []) [] (replace (b'\\' ∷ b'n' ∷ []) [] text))

abbrev pub trim_end : Text → Text
trim_end text = trim_right is_comma (trim_right is_escape (trim_right is_newline text))

-- From the bytes of the file to the text that is decoded.
unfoldable pub array_text : Text → Text
array_text file =
    b'[' ∷ (trim_left is_comma (trim_end (trim_end (without_escapes file))) ++ b']' ∷ [])

-- `len(logdata) - val` in 64 bits; the length is below 2 ^ 63.
abbrev pub minus_int : ℕ → ℤ → ℤ
minus_int n (pos v) = sub_ℕ n v
minus_int n (negsuc v) =
    if ltb (n + suc v) int_limit then pos (n + suc v) else sub_ℕ (n + suc v) (2 * int_limit)

-- Where the sent logs begin, from the value of `tail`; `if val < 0 { val = 0 }`.
unfoldable pub start_of : ℕ → Option Text → ℕ
start_of n none = 0
start_of n (some tail) = elim (atoi tail) [ none ↦ 0 | some v ↦ pos_part (minus_int n v) ]

-- `logdata[val:]`, which panics beyond the end.
unfoldable pub slice_from : {A : Type 0} → ℕ → List A → Option (List A)
slice_from n xs = if leb n (length xs) then some (drop n xs) else none

-- What is sent for the content of the file, or the panic; errors of the file and of JSON are logged.
unfoldable pub retrieve_logs :
    (decode : Text → Reply (List LogInfo))
    → Reply Text
    → (tail : Option Text) → Option (List LogInfo)
unfolding array_text slice_from start_of
retrieve_logs decode file tail =
    let logdata = (decode (array_text file.value)).value in
    slice_from (start_of (length logdata) tail) logdata
