-- ===== src/Logger/Endpoint/Retrieve/Runs.antt =====
-- The endpoint reads the file that a run of the collector wrote.
use kubernetes_cluster_monit.Keys.{injected_status_key, injected_status_value}
use kubernetes_cluster_monit.Kube.{Pod}
use kubernetes_cluster_monit.Logger.Collector.Rounds.{
  CollectorEvent, took_pods, got_logs, wrote, World, add_lines, chunk_text, Gathered, take_logs,
  collect_pod, collect_round,
}
use kubernetes_cluster_monit.Logger.Collector.Run.{run_rounds, log_file}
use kubernetes_cluster_monit.Logger.Endpoint.Retrieve.{array_text}
use kubernetes_cluster_monit.Logger.Endpoint.Retrieve.Pipeline.{
  IsObjects, marshalled, present, file_text, joined, array_text-file_text,
}
use kubernetes_cluster_monit.Logger.Entry.{LogInfo}
use kubernetes_cluster_monit.Prelude.{
  ℕ, zero, suc, ◌≡◌, refl, sym, ap, ◌∙◌, inl, inr, Bool, false, Option, none, some, List, [], ◌∷◌,
  ◌++◌, map, map-append, append-nil, append_assoc, Bool-cases, Option-cases, All,
}
use kubernetes_cluster_monit.Prelude.Dict.{get, entries}
use kubernetes_cluster_monit.Prelude.Program.{
  Reply, Triple, pure-Triple, pure_post-Triple, crash-Triple, call-Triple, bind-Triple,
  check_bind-Triple, for_state-Triple,
}
use kubernetes_cluster_monit.Prelude.Text.{Text, text_eq}

-- The logs so far with those of one more answer; `none` is a panic.
abbrev pub with_answer : (Text → List Text) → Reply Text → List LogInfo → Option (List LogInfo)
with_answer scan reply logs = elim reply.error [
  | some err ↦ some logs
  | none ↦ add_lines (scan reply.value) logs
]

-- The logs of the answers since the last listing of the pods.
abbrev pub logs_since : (Text → List Text) → List CollectorEvent → Option (List LogInfo)
logs_since scan [] = some []
logs_since scan (took_pods reply ∷ h) = some []
logs_since scan (wrote t ∷ h) = some []
logs_since scan (got_logs ns name since reply ∷ h) = elim (logs_since scan h) [
  | none ↦ none
  | some logs ↦ with_answer scan reply logs
]

abbrev logs_or_none : Option (List LogInfo) → List LogInfo
logs_or_none none = []
logs_or_none (some logs) = logs

-- For each write to the file, the logs that had been answered since the listing before, the oldest first.
abbrev pub round_logs : (Text → List Text) → List CollectorEvent → List (List LogInfo)
round_logs scan [] = []
round_logs scan (took_pods reply ∷ h) = round_logs scan h
round_logs scan (got_logs ns name since reply ∷ h) = round_logs scan h
round_logs scan (wrote t ∷ h) = round_logs scan h ++ logs_or_none (logs_since scan h) ∷ []

file_text-append :
    (rs : List (Option Text)) (r : Option Text)
    → file_text (rs ++ r ∷ []) ≡ file_text rs ++ chunk_text (marshalled r)
file_text-append [] r = append-nil _
file_text-append (q ∷ rs) r =
    rw (file_text-append rs r)
      (sym (append_assoc (chunk_text (marshalled q)) (file_text rs) (chunk_text (marshalled r))))

module _ (w : World) (objects_of : List LogInfo → Option Text)
    (as_json : (logs : List LogInfo) → (w.marshal logs).value ≡ marshalled (objects_of logs)) where
  -- What `json` puts between the brackets, for each round.
  abbrev round_objects : List CollectorEvent → List (Option Text)
  round_objects h = map objects_of (round_logs w.scan h)

  -- The file is that of its rounds.
  abbrev IsLog : List CollectorEvent → Type 0
  IsLog h = log_file [] h ≡ file_text (round_objects h)

  -- These are the logs of the round.
  abbrev Gathering : List LogInfo → List CollectorEvent → Type 0
  Gathering logs h = logs_since w.scan h ≡ some logs

  wrote-IsLog :
      (h : List CollectorEvent) (logs : List LogInfo)
      → IsLog h
      → Gathering logs h
      → IsLog (wrote (chunk_text (w.marshal logs).value) ∷ h)
  wrote-IsLog h logs l g =
      ap (λ t. t ++ chunk_text (w.marshal logs).value) l
      ∙ ap (λ x. file_text (round_objects h) ++ chunk_text x) (as_json logs)
      ∙ sym (file_text-append (round_objects h) (objects_of logs))
      ∙ ap file_text (sym (map-append objects_of (round_logs w.scan h) (logs ∷ [])))
      ∙ ap (λ o. file_text (map objects_of (round_logs w.scan h ++ logs_or_none o ∷ []))) (sym g)

  take_logs-Gathering :
      (reply : Reply Text) (logs : List LogInfo)
      → Triple IsLog
          (λ h. logs_since w.scan h ≡ with_answer w.scan reply logs)
          (take_logs w reply logs)
          (λ after. Gathering after.0.1)
  unfolding take_logs
  take_logs-Gathering reply logs = elim (Option-cases reply.error) [
    | inr (err, e) ↦ rw (e, take_logs) (pure_post-Triple _ (λ h p. p))
    | inl e ↦
        rw (e, take_logs)
          (elim (Option-cases (add_lines (w.scan reply.value) logs)) [
            | inl c ↦ rw (c, take_logs) crash-Triple
            | inr (ls, a) ↦ rw (a, take_logs) (pure_post-Triple _ (λ h p. p))
          ])
  ]

  collect_pod-Gathering :
      (pod : Pod) (g : Gathered)
      → Triple IsLog (Gathering g.1) (collect_pod w pod g) (λ after. Gathering after.0.1)
  unfolding collect_pod
  collect_pod-Gathering pod g =
      elim (Bool-cases
        (text_eq (get injected_status_key (entries pod.annotations)) injected_status_value)) [
          | inl e ↦ rw e (
              bind-Triple {Q = λ reply h. logs_since w.scan h ≡ with_answer w.scan reply g.1}
                (call-Triple _ _ (λ h i p. (i, rw p refl)))
                (λ reply. take_logs-Gathering reply g.1))
          | inr e ↦ rw e (pure_post-Triple (g, false) (λ h p. p))
        ]

  abbrev Nothing : List CollectorEvent → Type 0
  Nothing h = Unit

  collect_round-IsLog :
      (exists : Bool) → Triple IsLog Nothing (collect_round w exists) (λ _. Nothing)
  unfolding collect_round
  collect_round-IsLog exists =
      bind-Triple {Q = λ _. Gathering []} (call-Triple _ _ (λ h i p. (i, refl))) λ reply.
        check_bind-Triple reply tt _ (
          bind-Triple {Q = λ g. Gathering g.1}
            (for_state-Triple {P = λ g. Gathering g.1} (collect_pod w) reply.value
              (λ pod m g. collect_pod-Gathering pod g) (exists, []))
            λ g.
              bind-Triple {Q = λ _. Nothing}
                (call-Triple _ _ (λ h i p. (wrote-IsLog h g.1 i p, tt))) (λ _. pure-Triple g.0))

  run_rounds-IsLog :
      (rounds : ℕ) (exists : Bool)
      → Triple IsLog Nothing (run_rounds w rounds exists) (λ _. Nothing)
  unfolding run_rounds
  run_rounds-IsLog zero exists = pure-Triple exists
  run_rounds-IsLog (suc rounds) exists =
      bind-Triple (collect_round-IsLog exists) (λ after. run_rounds-IsLog rounds after)

-- However many rounds the collector has run on an empty file, and whatever was answered, also where a
-- round stopped it: what the endpoint decodes of the file is one JSON array, with the objects of the
-- rounds, in their order, each those of the logs that were answered in the round. `json` puts the objects
-- of a list between brackets, no text in the logs that were collected needs an escape, and none has two
-- commas in a row.
pub run_rounds-array_text :
    (w : World) (objects_of : List LogInfo → Option Text)
    → ((logs : List LogInfo) → (w.marshal logs).value ≡ marshalled (objects_of logs))
    → (rounds : ℕ) (exists : Bool)
    → All IsObjects (present (map objects_of (round_logs w.scan (run_rounds w rounds exists []).1)))
    → array_text (log_file [] (run_rounds w rounds exists []).1)
      ≡ b'['
        ∷ (joined (present (map objects_of (round_logs w.scan (run_rounds w rounds exists []).1)))
            ++ b']' ∷ [])
run_rounds-array_text w objects_of as_json rounds exists plain =
    ap array_text (Triple.run (run_rounds-IsLog w objects_of as_json rounds exists) [] refl tt).0
    ∙ array_text-file_text _ plain
