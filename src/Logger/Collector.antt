-- ===== src/Logger/Collector.antt =====
-- `logger/collector/collector.go`: reading the lines of the sidecars' logs.
pub mod Lines
pub mod RoundTrip
pub mod Fields
pub mod Rounds
pub mod Run
pub mod Checks
use kubernetes_cluster_monit.Logger.Entry.{LogInfo, blank}
use kubernetes_cluster_monit.Prelude.{
  ℕ, zero, suc, ◌+◌, Option, none, some, List, [], ◌∷◌, ◌++◌, ◌==◌, if◌then◌else◌, length, take,
  drop,
}
use kubernetes_cluster_monit.Prelude.Dict.{Dict, insert, get}
use kubernetes_cluster_monit.Prelude.Text.{Text, codes, text_eq, index, trim_space}

-- One round of the loop of `processLine` from the first `=` on: the key, the value and the rest of the
-- line. A `none` is a panic, an index or a slice out of range.
pub record Pair : Type 0 where
  pub key : Text
  pub value : Text
  pub rest : Text

-- `s[i+1:]` behind an opening quote; without a closing quote `j` is -1, and `s[:j-1]` panics.
unfoldable pub quoted : Text → Text → Option Pair
quoted key s = elim (index b'"' s) [
  | none ↦ none
  | some j ↦ some (record { key = key; value = take j s; rest = drop (j + 1) s })
]

-- A value up to a blank, or to the end: then `s` is left as it is.
unfoldable pub unquoted : Text → Text → Pair
unquoted key s = elim (index b' ' s) [
  | none ↦ record { key = key; value = s; rest = s }
  | some j ↦ record { key = key; value = take j s; rest = drop (j + 1) s }
]

-- `string(s[0])` panics on an empty rest.
unfoldable pub read_value : Text → Text → Option Pair
unfolding quoted unquoted
read_value key [] = none
read_value key (c ∷ s) = if c == b'"' then quoted key s else some (unquoted key (c ∷ s))

unfoldable pub read_pair : Text → ℕ → Option Pair
unfolding read_value
read_pair s i = read_value (trim_space (take i s)) (drop (i + 1) s)

-- The outcome of `processLine`.
pub data Parsed : Type 0 where
  fields : Dict → Parsed
  panicked : Parsed
  out_of_fuel : Parsed

-- The loop of `processLine`, with the map made so far.
unfoldable pub process_from : (fuel : ℕ) → Text → Dict → Parsed
process_from zero s m = out_of_fuel
process_from (suc fuel) s m = elim (index b'=' s) [
  | none ↦ fields m
  | some i ↦ elim (read_pair s i) [
    | none ↦ panicked
    | some p ↦ process_from fuel p.rest (insert p.key p.value m)
  ]
]

-- Every round takes away a byte at least, so the length of the line is enough fuel.
unfoldable pub process_line : Text → Parsed
unfolding process_from read_pair
process_line s = process_from (suc (length s)) s []

abbrev pub log_key : Text
log_key = codes "liveness-check"

-- The switch over the keys of one log line.
unfoldable pub set_field : Text → Text → LogInfo → LogInfo
set_field k v l =
    if text_eq k (codes "time")
    then record l { time = v }
    else if text_eq k (codes "msg")
    then record l { msg = v }
    else if text_eq k (codes "level")
    then record l { level = v }
    else if text_eq k (codes "container")
    then record l { container = v }
    else if text_eq k (codes "request")
    then record l { request = v }
    else if text_eq k (codes "statusMsg")
    then record l { status = v }
    else if text_eq k (codes "statuscode")
    then record l { status_code = v }
    else if text_eq k (codes "pod")
    then record l { pod = v }
    else if text_eq k (codes "type")
    then record l { msgtype = v }
    else if text_eq k (codes "url")
    then record l { url = v }
    else l

unfoldable pub set_fields : Dict → LogInfo → LogInfo
unfolding set_field
set_fields [] l = l
set_fields ((k, v) ∷ m) l = set_fields m (set_field k v l)

-- `addToLog`
unfoldable pub add_to_log : Dict → List LogInfo → List LogInfo
unfolding set_fields
add_to_log m logs =
    if text_eq (get (codes "type") m) log_key then logs ++ set_fields m blank ∷ [] else logs

-- `addToLogMap`, which is not used
unfoldable pub add_to_log_map : Dict → List Dict → List Dict
add_to_log_map m logs = if text_eq (get (codes "type") m) log_key then logs ++ m ∷ [] else logs
