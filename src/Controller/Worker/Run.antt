-- ===== src/Controller/Worker/Run.antt =====
-- `runWorker` of `CustomResource/controller.go`, on fuel.
pub mod Drained
use kubernetes_cluster_monit.Controller.Worker.{Workqueue, Found, Worker, process_next_item}
use kubernetes_cluster_monit.Kube.{History, Kube}
use kubernetes_cluster_monit.Prelude.{ℕ, zero, suc, true, false, none, some}
use kubernetes_cluster_monit.Prelude.Text.{Text}

-- How the loop ended, or that it still runs when the fuel is gone.
pub data Ran (Q : Type 0) : Type 0 where
  completed : Worker Q → Ran Q
  panicked : Ran Q
  still_running : Worker Q → Ran Q

unfoldable pub run_worker :
    {Q : Type 0} → Workqueue Q → Kube → (History → Text → Found) → (fuel : ℕ) → Worker Q → Ran Q
unfolding process_next_item
run_worker q k get_by_key zero w = still_running w
run_worker q k get_by_key (suc fuel) w = elim (process_next_item q k get_by_key w) [
  | none ↦ panicked
  | some (true, w') ↦ run_worker q k get_by_key fuel w'
  | some (false, w') ↦ completed w'
]
