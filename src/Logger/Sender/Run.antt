-- ===== src/Logger/Sender/Run.antt =====
-- The endless loop of `main` in `logger/sender/sender.go`, cut off after a number of rounds. A pause
-- takes no step.
pub mod Complete
use kubernetes_cluster_monit.Clients.{ClientGo, get_clients}
use kubernetes_cluster_monit.Logger.Sender.{SenderEvent, Peers, Pace, send_round}
use kubernetes_cluster_monit.Prelude.{ℕ, zero, suc, none, some, List, [], ◌∷◌, ◌++◌}
use kubernetes_cluster_monit.Prelude.Program.{Prog, pure, crash, ◌>>=◌, embed}
use kubernetes_cluster_monit.Prelude.Text.{Text}

-- The way in which the next round began is kept for each round; a round that returns early is followed
-- by the next one too, and `log.Fatal` ends the program.
unfoldable pub run_from : Peers → (rounds : ℕ) → List Pace → Prog SenderEvent (Unit {0}) (List Pace)
unfolding send_round
run_from p zero paces = pure paces
run_from p (suc rounds) paces =
    embed (send_round p) >>= λ pace. run_from p rounds (paces ++ pace ∷ [])

abbrev pub run_sender : Peers → (rounds : ℕ) → Prog SenderEvent (Unit {0}) (List Pace)
run_sender p rounds = run_from p rounds []

-- `main`; `connect` is the world with the client of the custom resources.
unfoldable pub sender_main :
    {RestConfig Client Receivers : Type 0}
    → ClientGo RestConfig Client Receivers
    → (connect : Receivers → Peers) → (kubeconfig : Text) (rounds : ℕ)
    → Prog SenderEvent (Unit {0}) (List Pace)
unfolding get_clients run_from
sender_main lib connect kubeconfig rounds = elim (get_clients lib kubeconfig) [
  | none ↦ crash
  | some clients ↦ run_sender (connect clients.1) rounds
]
