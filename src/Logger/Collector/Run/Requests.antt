-- ===== src/Logger/Collector/Run/Requests.antt =====
-- How often the collector asks for all logs of a container.
use kubernetes_cluster_monit.Clients.{ClientGo, get_kubernetes_client}
use kubernetes_cluster_monit.Keys.{injected_status_key, injected_status_value}
use kubernetes_cluster_monit.Kube.{Pod}
use kubernetes_cluster_monit.Logger.Collector.Rounds.{
  CollectorEvent, took_pods, got_logs, wrote, World, add_lines, Gathered, since_option, take_logs,
  collect_pod, collect_round,
}
use kubernetes_cluster_monit.Logger.Collector.Run.{
  Stat, there, not_there, unknown, file_exists, run_rounds, collect, collector_main,
}
use kubernetes_cluster_monit.Logger.Entry.{LogInfo}
use kubernetes_cluster_monit.Prelude.{
  ℕ, zero, suc, ◌+◌, ◌≤◌, ◌<◌, ◌≡◌, refl, subst, inl, inr, Bool, true, false, Option, none, some,
  List, [], ◌∷◌, arith, ◌==◌, if◌then◌else◌, Bool-cases, Option-cases,
}
use kubernetes_cluster_monit.Prelude.Dict.{get, entries}
use kubernetes_cluster_monit.Prelude.Program.{
  Reply, call, program, Triple, pure_post-Triple, crash-Triple, call-Triple, bind-Triple,
  check_bind-Triple, for_state-Triple,
}
use kubernetes_cluster_monit.Prelude.Text.{Text, text_eq}

-- The requests with no limit of time.
abbrev pub whole_requests : List CollectorEvent → ℕ
whole_requests [] = 0
whole_requests (got_logs ns name none reply ∷ h) = suc (whole_requests h)
whole_requests (got_logs ns name (some s) reply ∷ h) = whole_requests h
whole_requests (took_pods reply ∷ h) = whole_requests h
whole_requests (wrote t ∷ h) = whole_requests h

-- The requests with a limit that is not 30 seconds.
abbrev pub other_requests : List CollectorEvent → ℕ
other_requests [] = 0
other_requests (got_logs ns name none reply ∷ h) = other_requests h
other_requests (got_logs ns name (some s) reply ∷ h) =
    if s == 30 then other_requests h else suc (other_requests h)
other_requests (took_pods reply ∷ h) = other_requests h
other_requests (wrote t ∷ h) = other_requests h

module _ (w : World) (limit others : ℕ) where
  abbrev AtMost : List CollectorEvent → Type 0
  AtMost h = (whole_requests h ≤ limit) × (other_requests h ≤ others)

  -- While the flag is not set, one more is within the limit.
  abbrev Fresh : Bool → List CollectorEvent → Type 0
  Fresh true h = Unit
  Fresh false h = whole_requests h < limit

  take_logs-Fresh :
      (reply : Reply Text) (logs : List LogInfo)
      → Triple AtMost (λ _. Unit) (take_logs w reply logs) (λ after. Fresh after.0.0)
  unfolding take_logs
  take_logs-Fresh reply logs = elim (Option-cases reply.error) [
    | inr (err, e) ↦ rw (e, take_logs) (pure_post-Triple _ (λ h p. tt))
    | inl e ↦
        rw (e, take_logs)
          (elim (Option-cases (add_lines (w.scan reply.value) logs)) [
            | inl c ↦ rw (c, take_logs) crash-Triple
            | inr (ls, a) ↦ rw (a, take_logs) (pure_post-Triple _ (λ h p. tt))
          ])
  ]

  request-AtMost :
      (pod : Pod) (g : Gathered)
      → Triple {R = Unit {0}} AtMost
          (Fresh g.0)
          (call
            (λ h. w.stream h pod.namespace pod.name (since_option g.0))
            (got_logs pod.namespace pod.name (since_option g.0)))
          (λ _ _. Unit)
  request-AtMost pod (true, logs) = call-Triple _ _ (λ h i p. (i, tt))
  request-AtMost pod (false, logs) = call-Triple _ _ (λ h i p. ((omega arith, i.1), tt))

  collect_pod-Fresh :
      (pod : Pod) (g : Gathered)
      → Triple AtMost (Fresh g.0) (collect_pod w pod g) (λ after. Fresh after.0.0)
  unfolding collect_pod
  collect_pod-Fresh pod g =
      elim (Bool-cases
        (text_eq (get injected_status_key (entries pod.annotations)) injected_status_value)) [
          | inl e ↦ rw e (
              bind-Triple {Q = λ _ _. Unit} (request-AtMost pod g)
                (λ reply. take_logs-Fresh reply g.1))
          | inr e ↦ rw e (pure_post-Triple (g, false) (λ h p. p))
        ]

  Fresh-cons :
      (b : Bool) (e : CollectorEvent) (h : List CollectorEvent)
      → whole_requests (e ∷ h) ≡ whole_requests h
      → Fresh b h
      → Fresh b (e ∷ h)
  Fresh-cons true e h s f = tt
  Fresh-cons false e h s f = omega arith

  collect_round-Fresh :
      (exists : Bool) → Triple AtMost (Fresh exists) (collect_round w exists) Fresh
  unfolding collect_round
  collect_round-Fresh exists =
      bind-Triple {Q = λ _. Fresh exists}
        (call-Triple _ _ (λ h i p. (i, Fresh-cons exists _ h refl p)))
        λ reply. check_bind-Triple reply tt _ (
          bind-Triple {Q = λ g. Fresh g.0}
            (for_state-Triple {P = λ g. Fresh g.0} (collect_pod w) reply.value
              (λ pod m. collect_pod-Fresh pod) (exists, []))
            λ g.
              bind-Triple {Q = λ _. Fresh g.0}
                (call-Triple _ _ (λ h i p. (i, Fresh-cons g.0 _ h refl p)))
                (λ _. pure_post-Triple g.0 (λ h p. p)))

  run_rounds-Fresh :
      (rounds : ℕ) (exists : Bool) → Triple AtMost (Fresh exists) (run_rounds w rounds exists) Fresh
  unfolding run_rounds
  run_rounds-Fresh zero exists = pure_post-Triple exists (λ h p. p)
  run_rounds-Fresh (suc rounds) exists =
      bind-Triple (collect_round-Fresh exists) (λ after. run_rounds-Fresh rounds after)

-- One request for all logs, when there is no log file.
abbrev pub allowance : Stat → ℕ
allowance not_there = 1
allowance _ = 0

-- One request for all logs more than before at most, if there was no log file, and no more with
-- another limit.
abbrev pub AddsAtMost : Stat → List CollectorEvent → List CollectorEvent → Type 0
AddsAtMost stat h h' =
    (whole_requests h' ≤ whole_requests h + allowance stat) × (other_requests h' ≤ other_requests h)

AddsAtMost-refl : (stat : Stat) (h : List CollectorEvent) → AddsAtMost stat h h
AddsAtMost-refl stat h = (omega arith, omega arith)

run_rounds-AtMost :
    (w : World) (rounds : ℕ) (stat : Stat) (exists : Bool) (h : List CollectorEvent)
    → file_exists stat ≡ some exists
    → AddsAtMost stat h (run_rounds w rounds exists h).1
run_rounds-AtMost w rounds there exists h e =
    subst (λ b. AddsAtMost there h (run_rounds w rounds b h).1) (cc)
      (Triple.run (run_rounds-Fresh w (whole_requests h + 0) (other_requests h) rounds true) h
        (AddsAtMost-refl there h) tt).0
run_rounds-AtMost w rounds not_there exists h e =
    subst (λ b. AddsAtMost not_there h (run_rounds w rounds b h).1) (cc)
      (Triple.run (run_rounds-Fresh w (whole_requests h + 1) (other_requests h) rounds false) h
        (AddsAtMost-refl not_there h) (omega arith)).0
run_rounds-AtMost w rounds (unknown err) exists h e = absurd (cc)

collect-whole_requests :
    (w : World) (rounds : ℕ) (stat : Stat) (open_error : Option Text) (h : List CollectorEvent)
    → AddsAtMost stat h (collect w rounds stat open_error h).1
unfolding collect program
collect-whole_requests w rounds stat open_error h = elim (Option-cases (file_exists stat)) [
  | inl e ↦ rw (e, collect) (AddsAtMost-refl stat h)
  | inr (exists, e) ↦
      rw (e, collect)
        (elim (Option-cases open_error) [
          | inl o ↦ rw o (run_rounds-AtMost w rounds stat exists h e)
          | inr (err, o) ↦ rw o (AddsAtMost-refl stat h)
        ])
]

-- However long the collector runs, and whatever is answered, it makes at most one request for all logs
-- of a container, and none where the log file was there; all other requests ask for the last 30
-- seconds.
pub collector_main-whole_requests :
    {RestConfig Client Receivers : Type 0} (lib : ClientGo RestConfig Client Receivers)
    (connect : Client → World) (kubeconfig : Text) (rounds : ℕ) (stat : Stat)
    (open_error : Option Text) (h : List CollectorEvent)
    → (whole_requests (collector_main lib connect kubeconfig rounds stat open_error h).1
        ≤ whole_requests h + allowance stat)
      × (other_requests (collector_main lib connect kubeconfig rounds stat open_error h).1
          ≤ other_requests h)
unfolding collector_main program
collector_main-whole_requests lib connect kubeconfig rounds stat open_error h =
    let client = get_kubernetes_client lib kubeconfig in
    elim (Option-cases client.error) [
      | inr (err, e) ↦ rw (e, collector_main) (AddsAtMost-refl stat h)
      | inl e ↦
          rw (e, collector_main)
            (elim (Option-cases client.value) [
              | inl n ↦ rw n (AddsAtMost-refl stat h)
              | inr (c, v) ↦ rw v (collect-whole_requests (connect c) rounds stat open_error h)
            ])
    ]
