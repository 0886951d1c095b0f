-- ===== src/Logger/Collector/Run.antt =====
-- `main` of `logger/collector/collector.go`: the client, whether the log file is there, and the endless
-- loop, cut off after a number of rounds. A pause takes no step.
pub mod Requests
use kubernetes_cluster_monit.Clients.{ClientGo, get_kubernetes_client}
use kubernetes_cluster_monit.Logger.Collector.Rounds.{
  CollectorEvent, took_pods, got_logs, wrote, World, collect_round,
}
use kubernetes_cluster_monit.Prelude.{
  ℕ, zero, suc, Bool, true, false, Option, none, some, List, [], ◌∷◌, ◌++◌,
}
use kubernetes_cluster_monit.Prelude.Program.{Prog, pure, exit, ◌>>=◌, ◌>>◌, return_on_error, deref}
use kubernetes_cluster_monit.Prelude.Text.{Text}

-- The answer of `os.Stat`.
pub data Stat : Type 0 where
  there : Stat
  not_there : Stat
  unknown : (err : Text) → Stat

-- `fileExistsBool`; `none` is the early return.
abbrev pub file_exists : Stat → Option Bool
file_exists there = some true
file_exists not_there = some false
file_exists (unknown err) = none

module _ (w : World) where
  -- The next round begins with the flag that the one before left.
  unfoldable pub run_rounds : (rounds : ℕ) → Bool → Prog CollectorEvent (Unit {0}) Bool
  unfolding collect_round
  run_rounds zero exists = pure exists
  run_rounds (suc rounds) exists = collect_round w exists >>= λ after. run_rounds rounds after

  -- `open_error` is what `os.OpenFile` returns.
  unfoldable pub collect :
      (rounds : ℕ) → Stat → (open_error : Option Text) → Prog CollectorEvent (Unit {0}) Bool
  unfolding run_rounds
  collect rounds stat open_error = elim (file_exists stat) [
    | none ↦ exit tt
    | some exists ↦ (return_on_error open_error tt >> run_rounds rounds exists)
  ]

-- `main`; `connect` is the world with the client.
unfoldable pub collector_main :
    {RestConfig Client Receivers : Type 0}
    → ClientGo RestConfig Client Receivers
    → (connect : Client → World) → (kubeconfig : Text) (rounds : ℕ) → Stat
    → (open_error : Option Text) → Prog CollectorEvent (Unit {0}) Bool
unfolding get_kubernetes_client collect
collector_main lib connect kubeconfig rounds stat open_error =
    let client = get_kubernetes_client lib kubeconfig in
    elim client.error [
      | some err ↦ exit tt
      | none ↦ (deref client.value >>= λ c. collect (connect c) rounds stat open_error)
    ]

-- The log file after these calls, which were made with the file at `old`; no write has failed.
abbrev pub log_file : Text → List CollectorEvent → Text
log_file old [] = old
log_file old (wrote t ∷ h) = log_file old h ++ t
log_file old (took_pods reply ∷ h) = log_file old h
log_file old (got_logs ns name since reply ∷ h) = log_file old h
