-- ===== src/Logger/Collector/Rounds/Requests.antt =====
-- Which logs one round of the collector asks for, and what it writes.
use kubernetes_cluster_monit.Keys.{injected_status_key, injected_status_value}
use kubernetes_cluster_monit.Kube.{Pod}
use kubernetes_cluster_monit.Logger.Collector.Rounds.{
  CollectorEvent, took_pods, got_logs, wrote, World, log_duration, add_lines, chunk_text, Gathered,
  since_option, take_logs, collect_pod, collect_round,
}
use kubernetes_cluster_monit.Logger.Entry.{LogInfo}
use kubernetes_cluster_monit.Prelude.{
  ◌≡◌, refl, ap, inl, inr, Bool, true, false, none, some, List, [], ◌∷◌, Bool-cases, Option-cases,
}
use kubernetes_cluster_monit.Prelude.Dict.{get, entries}
use kubernetes_cluster_monit.Prelude.Program.{
  Reply, call, Since, begun, followed, Triple, pure_post-Triple, crash-Triple, call-Triple,
  bind-Triple, check_bind-Triple, for_state-Triple,
}
use kubernetes_cluster_monit.Prelude.Text.{Text, text_eq}

-- What a round may do that begins with the record `h₀`, and with the file there or not: to ask for
-- the logs of the last 30 seconds; to ask for all logs, once, before any other request, when there is
-- no file; to write the text of some logs.
abbrev pub Asks : World → Bool → List CollectorEvent → List CollectorEvent → CollectorEvent → Type 0
Asks w exists h₀ h (took_pods reply) = Unit
Asks w exists h₀ h (got_logs ns name none reply) =
    (exists ≡ false) × (r : Reply (List Pod)) × (h ≡ took_pods r ∷ h₀)
Asks w exists h₀ h (got_logs ns name (some s) reply) = s ≡ log_duration
Asks w exists h₀ h (wrote t) = (logs : List LogInfo) × (t ≡ chunk_text (w.marshal logs).value)

module _ (w : World) (exists : Bool) (h₀ : List CollectorEvent) where
  abbrev Audited : List CollectorEvent → Type 0
  Audited = Since (Asks w exists h₀) h₀

  -- Where the next request may ask for all logs, none has been made.
  abbrev Ready : Gathered → List CollectorEvent → Type 0
  Ready (true, logs) h = Unit
  Ready (false, logs) h = (exists ≡ false) × (r : Reply (List Pod)) × (h ≡ took_pods r ∷ h₀)

  take_logs-Triple :
      (reply : Reply Text) (logs : List LogInfo)
      → Triple Audited (λ _. Unit) (take_logs w reply logs) (λ after. Ready after.0)
  unfolding take_logs
  take_logs-Triple reply logs = elim (Option-cases reply.error) [
    | inr (err, e) ↦ rw (e, take_logs) (pure_post-Triple _ (λ h p. tt))
    | inl e ↦
        rw (e, take_logs)
          (elim (Option-cases (add_lines (w.scan reply.value) logs)) [
            | inl n ↦ rw (n, take_logs) crash-Triple
            | inr (ls, a) ↦ rw (a, take_logs) (pure_post-Triple _ (λ h p. tt))
          ])
  ]

  request-Triple :
      (pod : Pod) (g : Gathered)
      → Triple {R = Unit {0}} Audited
          (Ready g)
          (call
            (λ h. w.stream h pod.namespace pod.name (since_option g.0))
            (got_logs pod.namespace pod.name (since_option g.0)))
          (λ _ _. Unit)
  request-Triple pod (true, logs) = call-Triple _ _ (λ h i p. (followed i refl, tt))
  request-Triple pod (false, logs) = call-Triple _ _ (λ h i p. (followed i p, tt))

  collect_pod-Triple :
      (pod : Pod) (g : Gathered)
      → Triple Audited (Ready g) (collect_pod w pod g) (λ after. Ready after.0)
  unfolding collect_pod
  collect_pod-Triple pod g =
      elim (Bool-cases
        (text_eq (get injected_status_key (entries pod.annotations)) injected_status_value)) [
          | inl e ↦ rw e (
              bind-Triple {Q = λ _ _. Unit} (request-Triple pod g)
                (λ reply. take_logs-Triple reply g.1))
          | inr e ↦ rw e (pure_post-Triple (g, false) (λ h p. p))
        ]

  ready :
      (e : Bool) (r : Reply (List Pod)) (h : List CollectorEvent)
      → exists ≡ e
      → h ≡ h₀
      → Ready (e, []) (took_pods r ∷ h)
  ready true r h e p = tt
  ready false r h e p = (e, r, ap (◌∷◌ (took_pods r)) p)

  collect_round-Triple : Triple Audited (λ h. h ≡ h₀) (collect_round w exists) (λ _ _. Unit)
  unfolding collect_round
  collect_round-Triple =
      bind-Triple {Q = λ r. Ready (exists, [])}
        (call-Triple _ _ (λ h i p. (followed i tt, ready exists (w.pods h) h refl p)))
        λ reply. check_bind-Triple reply tt _ (
          bind-Triple {Q = Ready}
            (for_state-Triple {P = Ready} (collect_pod w) reply.value
              (λ pod m. collect_pod-Triple pod) (exists, []))
            λ g.
              bind-Triple {Q = λ _ _. Unit}
                (call-Triple _ _ (λ h i p. (followed i (g.1, refl), tt)))
                (λ _. pure_post-Triple g.0 (λ h p. tt)))

-- In one round of the collector each request for logs asks for those of the last 30 seconds, but for
-- the first one when there was no file: that one asks for all logs of its container, and no later one
-- does. What is written is made of the logs as JSON by `chunk_text`.
pub collect_round-Since :
    (w : World) (exists : Bool) (h : List CollectorEvent)
    → Since (Asks w exists h) h (collect_round w exists h).1
collect_round-Since w exists h = (Triple.run (collect_round-Triple w exists h) h begun refl).0
