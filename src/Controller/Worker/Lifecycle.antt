-- ===== src/Controller/Worker/Lifecycle.antt =====
-- `Run` of `CustomResource/controller.go` next to the informer's event handlers and the end of `main` of
-- `CustomResource/main.go`: goroutines, as a step relation. `Get` of the queue waits for a key or for
-- the shutdown; `wait.Until` runs the worker, and again after each pause, unless the channel is closed. A
-- panic in the worker runs the deferred `ShutDown` and ends the process, one in an event handler ends it
-- at once; `HandleCrash` logs it and panics again.
pub mod Stuck
use kubernetes_cluster_monit.Clients.{ClientGo, get_clients}
use kubernetes_cluster_monit.Controller.Handler.{Object}
use kubernetes_cluster_monit.Controller.Worker.{
  Workqueue, Found, Worker, on_add, on_update, process_next_item, on_delete,
}
use kubernetes_cluster_monit.Kube.{History, Kube}
use kubernetes_cluster_monit.Prelude.{◌≡◌, Bool, true, false, Option, none, some, if◌then◌else◌}
use kubernetes_cluster_monit.Prelude.Dict.{get}
use kubernetes_cluster_monit.Prelude.Program.{Reply}
use kubernetes_cluster_monit.Prelude.Text.{Text}
use kubernetes_cluster_monit.Receiver.{Receiver}

-- Where `Run` is: in `WaitForCacheSync`, in `runWorker`, between two runs of it, or it returned; or a
-- panic has ended the process.
pub data Phase : Type 0 where
  syncing : Phase
  working : Phase
  pausing : Phase
  returned : Phase
  crashed : Phase

abbrev pub is_crashed : Phase → Bool
is_crashed crashed = true
is_crashed _ = false

-- The controller, whether `stopCh` is closed, and whether the queue was shut down.
pub record Lifecycle (Q : Type 0) : Type 0 where
  pub worker : Worker Q
  pub phase : Phase
  pub stop_closed : Bool
  pub shut : Bool

module _ {Q : Type 0} where
  -- `Run` returns, with the deferred `ShutDown`.
  abbrev pub return_from : Lifecycle Q → Lifecycle Q
  return_from s = record s { phase = returned; shut = true }

  -- The loop of `wait.Until` before a run of the worker.
  abbrev pub until_stop : Lifecycle Q → Lifecycle Q
  until_stop s = if s.stop_closed then return_from s else record s { phase = working }

  -- `main` up to `go controller.Run(stopCh)`, with a new queue; `none` is `log.Fatalf`.
  unfoldable pub controller_main :
      {RestConfig Receivers : Type 0}
      → ClientGo RestConfig Kube Receivers
      → (kubeconfig : Text) → Q
      → History
      → Option (Kube × Lifecycle Q)
  unfolding get_clients
  controller_main lib kubeconfig queue h = elim (get_clients lib kubeconfig) [
    | none ↦ none
    | some clients ↦ some (
      clients.0,
      record {
        worker = record { queue = queue; history = h };
        phase = syncing;
        stop_closed = false;
        shut = false;
      },
    )
  ]

-- What can happen next. `key_func` and `deleted_key_func` are the key functions of the event handlers.
pub data Step {Q : Type 0} (q : Workqueue Q) (k : Kube) (get_by_key : History → Text → Found)
    (key_func deleted_key_func : Object → Reply Text) : Lifecycle Q → Lifecycle Q → Type 0 where
  synced :
      {s : Lifecycle Q}
      → s.phase ≡ syncing
      → Step q k get_by_key key_func deleted_key_func s (until_stop s)
  not_synced :
      {s : Lifecycle Q}
      → s.phase ≡ syncing
      → s.stop_closed ≡ true
      → Step q k get_by_key key_func deleted_key_func s (return_from s)
  item_done :
      {s : Lifecycle Q} (key : Text) (w : Worker Q)
      → s.phase ≡ working
      → (q.get s.worker.queue).0 ≡ some key
      → process_next_item q k get_by_key s.worker ≡ some (true, w)
      → Step q k get_by_key key_func deleted_key_func s (record s { worker = w })
  worker_done :
      {s : Lifecycle Q} (w : Worker Q)
      → s.phase ≡ working
      → s.shut ≡ true
      → process_next_item q k get_by_key s.worker ≡ some (false, w)
      → Step q k get_by_key key_func deleted_key_func s (record s { worker = w; phase = pausing })
  worker_panics :
      {s : Lifecycle Q}
      → s.phase ≡ working
      → process_next_item q k get_by_key s.worker ≡ none
      → Step q k get_by_key key_func deleted_key_func s (record s { phase = crashed; shut = true })
  pause_over :
      {s : Lifecycle Q}
      → s.phase ≡ pausing
      → Step q k get_by_key key_func deleted_key_func s (until_stop s)
  -- `close(stopCh)`
  closed :
      {s : Lifecycle Q}
      → is_crashed s.phase ≡ false
      → Step q k get_by_key key_func deleted_key_func s (record s { stop_closed = true })
  added :
      {s : Lifecycle Q} (o : Object)
      → is_crashed s.phase ≡ false
      → Step q k get_by_key key_func deleted_key_func s
          (record s { worker = on_add q key_func o s.worker })
  updated :
      {s : Lifecycle Q} (old new : Receiver)
      → is_crashed s.phase ≡ false
      → Step q k get_by_key key_func deleted_key_func s
          (record s { worker = on_update q key_func old new s.worker })
  deleted :
      {s : Lifecycle Q} (o : Object) (w : Worker Q)
      → is_crashed s.phase ≡ false
      → on_delete q k deleted_key_func o s.worker ≡ some w
      → Step q k get_by_key key_func deleted_key_func s (record s { worker = w })
  deletion_panics :
      {s : Lifecycle Q} (o : Object)
      → is_crashed s.phase ≡ false
      → on_delete q k deleted_key_func o s.worker ≡ none
      → Step q k get_by_key key_func deleted_key_func s (record s { phase = crashed })
