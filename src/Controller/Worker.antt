-- ===== src/Controller/Worker.antt =====
-- The worker of `CustomResource/controller.go` and the event handlers of `CustomResource/main.go`.
-- The work queue and the informer's cache are libraries, so they are parameters.
pub mod Retries
pub mod Run
pub mod Lifecycle
use kubernetes_cluster_monit.Controller.Handler.{Object, receiver, object_created, object_deleted}
use kubernetes_cluster_monit.Kube.{History, Kube}
use kubernetes_cluster_monit.Prelude.{
  ℕ, Bool, true, false, not, Option, none, some, ltb, if◌then◌else◌,
}
use kubernetes_cluster_monit.Prelude.Program.{Out, next, panic, Reply}
use kubernetes_cluster_monit.Prelude.Text.{Text, text_eq}
use kubernetes_cluster_monit.Receiver.{Receiver}

-- `workqueue.RateLimitingInterface`, on a queue of keys.
pub record Workqueue (Q : Type 0) : Type 0 where
  pub get : Q → Option Text × Q  -- `none` after a shutdown
  pub done : Q → Text → Q
  pub add : Q → Text → Q
  pub add_rate_limited : Q → Text → Q
  pub forget : Q → Text → Q
  pub num_requeues : Q → Text → ℕ

-- What `GetIndexer().GetByKey` returns.
pub record Found : Type 0 where
  pub item : Object
  pub exists : Bool
  pub error : Option Text

pub record Worker (Q : Type 0) : Type 0 where
  pub queue : Q
  pub history : History

abbrev max_retries : ℕ
max_retries = 5

module _ {Q : Type 0} (q : Workqueue Q) where
  -- `if err != nil { … }`, which does not return
  unfoldable pub requeue : Option Text → Q → Text → Q
  requeue none queue key = queue
  requeue (some err) queue key =
      if ltb (q.num_requeues queue key) max_retries
      then q.add_rate_limited queue key
      else q.forget queue key

  -- `if err == nil { queue.Add(key) }`
  abbrev pub add_key : Reply Text → Q → Q
  add_key key queue = elim key.error [ none ↦ q.add queue key.value | some err ↦ queue ]

  -- `AddFunc`
  unfoldable pub on_add : (Object → Reply Text) → Object → Worker Q → Worker Q
  on_add key_func obj w = record w { queue = add_key (key_func obj) w.queue }

  -- `UpdateFunc`, behind its type assertions
  unfoldable pub on_update : (Object → Reply Text) → Receiver → Receiver → Worker Q → Worker Q
  on_update key_func old new w =
      if text_eq new.resource_version old.resource_version
      then w
      else record w { queue = add_key (key_func (receiver new)) w.queue }

module _ {Q : Type 0} (q : Workqueue Q) (k : Kube) where
  -- The rest of a call whose handler ended, with the deferred `Done`.
  abbrev finished : Out (Unit {0}) (Unit {0}) → Q → Text → History → Option (Bool × Worker Q)
  finished panic queue key h = none
  finished _ queue key h =
      some (true, record { queue = q.done (q.forget queue key) key; history = h })

  unfoldable pub handle_item : Found → Q → Text → History → Option (Bool × Worker Q)
  unfolding requeue
  handle_item found queue key h =
      let queue' = requeue q found.error queue key in
      let created = object_created k found.item h in
      if not found.exists
      then finished (next tt) queue' key h
      else finished created.0 queue' key created.1

  -- `processNextItem`; `none` is a panic.
  unfoldable pub process_next_item : (History → Text → Found) → Worker Q → Option (Bool × Worker Q)
  unfolding handle_item
  process_next_item get_by_key w =
      let (next_key, queue) = q.get w.queue in
      elim next_key [
        | none ↦ some (false, record w { queue = queue })
        | some key ↦ handle_item (get_by_key w.history key) queue key w.history
      ]

  abbrev queued : Out (Unit {0}) (Unit {0}) → Q → History → Option (Worker Q)
  queued panic queue h = none
  queued _ queue h = some (record { queue = queue; history = h })

  -- `DeleteFunc`: the policy is taken out before the key is queued.
  unfoldable pub on_delete : (Object → Reply Text) → Object → Worker Q → Option (Worker Q)
  on_delete key_func obj w =
      let (out, h) = object_deleted k obj w.history in
      queued out (add_key q (key_func obj) w.queue) h
