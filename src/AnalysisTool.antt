-- ===== src/AnalysisTool.antt =====
-- `receiveLogs` of `analysis_tool/server.go`. The form, JSON and CSV are parameters.
pub mod Overwrite
use kubernetes_cluster_monit.Logger.Entry.{LogInfo}
use kubernetes_cluster_monit.Prelude.{Option, none, some, List, [], ◌∷◌, ◌++◌, map, length, drop}
use kubernetes_cluster_monit.Prelude.Program.{Reply}
use kubernetes_cluster_monit.Prelude.Text.{Text, codes}

-- `record`
unfoldable pub csv_record : LogInfo → List Text
csv_record obj =
    obj.time ∷ obj.level ∷ obj.msg ∷ obj.container ∷ obj.pod ∷ obj.request ∷ obj.status
    ∷ obj.status_code ∷ obj.msgtype ∷ obj.url ∷ []

-- Writing from the start of a file that is opened without `O_TRUNC`.
unfoldable pub overwrite : Text → Text → Text
overwrite written old = written ++ drop (length written) old

-- The page that is answered, and the file afterwards.
pub record Received : Type 0 where
  pub page : Text
  pub file : Text

-- The file after a write, which fails on a file that was not opened; no error of it is looked at.
abbrev pub write_file : (open_error : Option Text) → (written old : Text) → Text
write_file none written old = overwrite written old
write_file (some err) written old = old

-- From the decoding on; `open_error` is what `os.OpenFile` returns, and `encode` is what `csv.Writer`
-- makes of its records.
unfoldable pub store :
    (encode : List (List Text) → Text)
    → (open_error : Option Text) → (old : Text) → Reply (List LogInfo)
    → Received
unfolding csv_record overwrite
store encode open_error old logdata = elim logdata.error [
  | some err ↦ record { page = codes "Decode err: " ++ err; file = old }
  | none ↦ record {
    page = codes "Data received";
    file = write_file open_error (encode (map csv_record logdata.value)) old;
  }
]

-- `form` is `ParseForm` with the value of `data`, `decode` is `json.Unmarshal`.
unfoldable pub receive_logs :
    (decode : Text → Reply (List LogInfo)) (encode : List (List Text) → Text)
    → (form : Reply Text) → (open_error : Option Text) → (old : Text) → Received
unfolding store
receive_logs decode encode form open_error old = elim form.error [
  | some err ↦ record { page = codes "Parseform() err: " ++ err; file = old }
  | none ↦ store encode open_error old (decode form.value)
]
