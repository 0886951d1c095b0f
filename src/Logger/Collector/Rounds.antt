-- ===== src/Logger/Collector/Rounds.antt =====
-- The loop of `main` in `logger/collector/collector.go`: one round over the pods of the cluster. The
-- server, JSON and the scanner that cuts a text into lines are parameters.
pub mod Requests
use kubernetes_cluster_monit.Keys.{injected_status_key, injected_status_value}
use kubernetes_cluster_monit.Kube.{Pod}
use kubernetes_cluster_monit.Logger.Collector.{
  fields, panicked, out_of_fuel, process_line, add_to_log,
}
use kubernetes_cluster_monit.Logger.Entry.{LogInfo}
use kubernetes_cluster_monit.Prelude.{
  ℕ, Bool, true, false, Option, none, some, List, [], ◌∷◌, ◌++◌, ◌==◌, if◌then◌else◌,
}
use kubernetes_cluster_monit.Prelude.Dict.{get, entries}
use kubernetes_cluster_monit.Prelude.Program.{
  Prog, Reply, pure, crash, call, ◌>>=◌, ◌>>◌, check, for_state,
}
use kubernetes_cluster_monit.Prelude.Text.{
  replace, Text, text_eq, trim_left, trim_right, trim_space,
}

pub data CollectorEvent : Type 0 where
  took_pods : Reply (List Pod) → CollectorEvent
  got_logs : (ns name : Text) (since_seconds : Option ℕ) → Reply Text → CollectorEvent
  wrote : Text → CollectorEvent

-- `stream` is `GetLogs` and `Stream` with the reading of the buffer, of the container
-- `monitor-sidecar`; a write to the file may fail, which is only logged.
pub record World : Type 0 where
  pub pods : List CollectorEvent → Reply (List Pod)
  pub stream : List CollectorEvent → (ns name : Text) → Option ℕ → Reply Text
  pub scan : Text → List Text
  pub marshal : List LogInfo → Reply Text

abbrev pub log_duration : ℕ
log_duration = 30

-- The loop over the lines of a log; a `none` is a panic. (`process_line` does not run out of fuel.)
unfoldable pub add_lines : List Text → List LogInfo → Option (List LogInfo)
add_lines [] logs = some logs
add_lines (line ∷ lines) logs = elim (process_line (replace (b'\\' ∷ []) [] line)) [
  | fields m ↦ add_lines lines (add_to_log m logs)
  | panicked ↦ none
  | out_of_fuel ↦ none
]

-- The text that is written for one round: nothing for no logs.
unfoldable pub chunk_text : Text → Text
chunk_text logs =
    let trimmed = trim_space (trim_left (λ c. c == b'[') (trim_right (λ c. c == b']') logs)) in
    if text_eq trimmed [] then trimmed else trimmed ++ (b',' ∷ 10 ∷ [])

-- `fileExistsBool`, and the logs of the round
abbrev pub Gathered : Type 0
Gathered = Bool × List LogInfo

-- The options of the request: all logs the first time, when there was no file yet.
abbrev pub since_option : Bool → Option ℕ
since_option true = some log_duration
since_option false = none

module _ (w : World) where
  unfoldable pub take_logs :
      Reply Text → List LogInfo → Prog CollectorEvent (Unit {0}) (Gathered × Bool)
  unfolding add_lines
  take_logs reply logs = elim reply.error [
    | some err ↦ pure ((true, logs), false)
    | none ↦ elim (add_lines (w.scan reply.value) logs) [
      | none ↦ crash
      | some added ↦ pure ((true, added), false)
    ]
  ]

  -- The body of the loop over the pods.
  unfoldable pub collect_pod : Pod → Gathered → Prog CollectorEvent (Unit {0}) (Gathered × Bool)
  unfolding take_logs
  collect_pod pod g =
      if text_eq (get injected_status_key (entries pod.annotations)) injected_status_value
      then (call (λ h. w.stream h pod.namespace pod.name (since_option g.0))
            (got_logs pod.namespace pod.name (since_option g.0))
          >>= λ reply. take_logs reply g.1)
      else pure (g, false)

  -- One round; the next one begins with the new `fileExistsBool`.
  unfoldable pub collect_round : Bool → Prog CollectorEvent (Unit {0}) Bool
  unfolding collect_pod chunk_text
  collect_round exists = do
    reply ← call w.pods took_pods
    pods ← check reply tt
    g ← for_state collect_pod pods (exists, [])
    written ← call (λ h. chunk_text (w.marshal g.1).value) wrote
    pure g.0
