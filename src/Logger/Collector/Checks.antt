-- ===== src/Logger/Collector/Checks.antt =====
-- What the collector is handed of the sidecar's health checks: the lines of logrus' text formatter.
pub mod ReadBack
use kubernetes_cluster_monit.Logger.Collector.Fields.{Field, field_text}
use kubernetes_cluster_monit.Logger.Entry.{LogInfo}
use kubernetes_cluster_monit.Logger.Sender.Deliveries.{request}
use kubernetes_cluster_monit.Prelude.{
  ℕ, ◌≡◌, Bool, true, false, not, ◌&&◌, List, [], ◌∷◌, map, ltb, leb, ◌==◌, if◌then◌else◌, all,
}
use kubernetes_cluster_monit.Prelude.Dict.{Dict}
use kubernetes_cluster_monit.Prelude.Number.{itoa_nat}
use kubernetes_cluster_monit.Prelude.Text.{Text, codes, text_eq, has_no}
use kubernetes_cluster_monit.Sidecar.Health.{LogStruct}
use kubernetes_cluster_monit.Sidecar.Log.{log_message, Formatter}

-- A byte that can be printed, other than a quote and a backslash: in quotes it stands for itself.
abbrev pub is_plain_byte : ℕ → Bool
is_plain_byte c = leb 32 c && leb c 126 && not (c == b'"') && not (c == b'\\')

abbrev pub is_plain : Text → Bool
is_plain = all is_plain_byte

abbrev pub field_of : Formatter → Text × Text → Field
field_of f kv = record { quotes = f.needs_quotes kv.1; key = kv.0; value = kv.1 }

-- Fields with a blank between each two.
abbrev pub line_of : List Field → Text
line_of [] = []
line_of (x ∷ []) = field_text x []
line_of (x ∷ y ∷ xs) = field_text x (b' ' ∷ line_of (y ∷ xs))

abbrev pub text_le : Text → Text → Bool
text_le [] t = true
text_le (c ∷ s) [] = false
text_le (c ∷ s) (d ∷ t) = if ltb c d then true else (c == d && text_le s t)

abbrev pub are_sorted : Dict → Bool
are_sorted [] = true
are_sorted (kv ∷ []) = true
are_sorted (kv ∷ lw ∷ m) = text_le kv.0 lw.0 && are_sorted (lw ∷ m)

-- What the documentation of logrus says of the formatter: the time, the level and the message come
-- first, then the fields in the order of their keys. A value is quoted unless all its bytes are
-- letters, digits or among `-._/@^+`; where all are plain, the quotes are all that is added.
pub record IsTextFormat (f : Formatter) : Type 0 where
  pub writes :
      (time : Text) (m : Dict) (message : Text)
      → are_sorted m ≡ true
      → all
          (λ kv. is_plain kv.1)
          ((codes "time", time) ∷ (codes "level", codes "info") ∷ (codes "msg", message) ∷ m)
        ≡ true
      → f.write time m message
        ≡ line_of (
            map
              (field_of f)
              ((codes "time", time) ∷ (codes "level", codes "info") ∷ (codes "msg", message) ∷ m))
  pub safe_unquoted :
      (v : Text) → f.needs_quotes v ≡ false → (has_no b' ' v ≡ true) × (has_no b'=' v ≡ true)

-- The names, addresses and texts of an entry are plain, and its address is not empty.
pub record IsReadable (time : Text) (l : LogStruct) : Type 0 where
  pub time_is : is_plain time ≡ true
  pub container_is : is_plain l.container_name ≡ true
  pub pod_is : is_plain l.pod_name ≡ true
  pub request_is : is_plain l.request ≡ true
  pub status_is : is_plain l.status ≡ true
  pub url_is : is_plain l.url ≡ true
  pub has_url : text_eq l.url [] ≡ false

-- The entry of the log file.
abbrev pub info_of : Text → LogStruct → LogInfo
info_of time l = record {
  time = time;
  level = codes "info";
  msg = log_message;
  container = l.container_name;
  pod = l.pod_name;
  request = l.request;
  status = l.status;
  status_code = itoa_nat l.status_code;
  msgtype = codes "liveness-check";
  url = l.url;
}
