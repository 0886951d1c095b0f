-- ===== src/Controller/Worker/Run/Drained.antt =====
-- What the worker does with the keys that wait.
use kubernetes_cluster_monit.Controller.Handler.{receiver}
use kubernetes_cluster_monit.Controller.Handler.Complete.{object_created-Completes}
use kubernetes_cluster_monit.Controller.Handler.Covered.{IsObliging, IsVisited, IsVisited-IsStable}
use kubernetes_cluster_monit.Controller.Policy.{policy}
use kubernetes_cluster_monit.Controller.Policy.Scope.{scope}
use kubernetes_cluster_monit.Controller.Selector.{retrieve_expression}
use kubernetes_cluster_monit.Controller.Worker.{
  Workqueue, Found, Worker, requeue, handle_item, process_next_item,
}
use kubernetes_cluster_monit.Controller.Worker.Run.{Ran, still_running, run_worker}
use kubernetes_cluster_monit.Kube.{History, Kube}
use kubernetes_cluster_monit.Prelude.{
  ◌≡◌, refl, true, none, some, List, [], ◌∷◌, Memᴰ, length, All, All-map,
}
use kubernetes_cluster_monit.Prelude.Program.{Extends, Extends-refl, Extends-trans, IsStable}
use kubernetes_cluster_monit.Prelude.Text.{Text}
use kubernetes_cluster_monit.Receiver.{Receiver}

-- What the documentation of `workqueue` says of a queue with keys that wait, to which nothing is added
-- meanwhile: it hands out the first of them, and when this one is forgotten and done, the others wait.
pub record HandsOut {Q : Type 0} (q : Workqueue Q) (waiting : Q → List Text) : Type 0 where
  pub get_next :
      (s : Q) (key : Text) (keys : List Text) → waiting s ≡ key ∷ keys → (q.get s).0 ≡ some key
  pub turn_leaves :
      (s : Q) (key : Text) (keys : List Text)
      → waiting s ≡ key ∷ keys
      → waiting (q.done (q.forget (q.get s).1 key) key) ≡ keys

-- The policy has been carried out in each namespace of its scope.
abbrev pub IsApplied : Kube → Receiver → History → Type 0
IsApplied k r h =
    All (λ ns. IsVisited k (policy r.spec) (retrieve_expression r.spec.label_selector) ns h)
      (scope r.spec.namespace)

-- The informer's cache has the policy of the key, whatever happened before.
abbrev pub IsCached : (History → Text → Found) → (Text → Receiver) → Text → Type 0
IsCached get_by_key receiver_of key =
    (h : History)
    → get_by_key h key ≡ record { item = receiver (receiver_of key); exists = true; error = none }

IsApplied-IsStable : (k : Kube) (r : Receiver) → IsStable (IsApplied k r)
IsApplied-IsStable k r h h' g a =
    All-map _ _ (scope r.spec.namespace)
      (λ ns v.
        IsVisited-IsStable k (policy r.spec) (retrieve_expression r.spec.label_selector) ns h h' g
          v)
      a

module _ {k : Kube} (good : IsObliging k) {Q : Type 0} {q : Workqueue Q} {waiting : Q → List Text}
    (laws : HandsOut q waiting) (get_by_key : History → Text → Found)
    (receiver_of : Text → Receiver) where
  open laws use {get_next, turn_leaves}

  -- A turn of the worker with a key to hand out.
  record Turn (key : Text) (keys : List Text) (w : Worker Q) : Type 0 where
    w' : Worker Q
    goes_on : process_next_item q k get_by_key w ≡ some (true, w')
    left : waiting w'.queue ≡ keys
    grows : Extends w.history w'.history
    applied : IsApplied k (receiver_of key) w'.history

  process_next_item-Turn :
      (key : Text) (keys : List Text) (w : Worker Q)
      → IsCached get_by_key receiver_of key
      → waiting w.queue ≡ key ∷ keys
      → Turn key keys w
  unfolding process_next_item handle_item requeue
  process_next_item-Turn key keys w cached e =
      let c = object_created-Completes good (receiver_of key) w.history in
      let first = get_next w.queue key keys e in
      let s = (q.get w.queue).1 in
      record {
        w' = record { queue = q.done (q.forget s key) key; history = c.after };
        goes_on = rw (first, process_next_item) (rw (cached w.history) (rw c.goes_on refl));
        left = turn_leaves w.queue key keys e;
        grows = c.grows;
        applied = c.holds;
      }

  -- The keys that wait are handled one by one.
  record Handled (keys : List Text) (w : Worker Q) (outcome : Ran Q) : Type 0 where
    w' : Worker Q
    goes_on : outcome ≡ still_running w'
    left : waiting w'.queue ≡ []
    grows : Extends w.history w'.history
    applied : All (λ key. IsApplied k (receiver_of key) w'.history) keys

  run_worker-Handled :
      (keys : List Text) (w : Worker Q)
      → ((key : Text) → Memᴰ key keys → IsCached get_by_key receiver_of key)
      → waiting w.queue ≡ keys
      → Handled keys w (run_worker q k get_by_key (length keys) w)
  unfolding run_worker process_next_item
  run_worker-Handled [] w cached e = record {
    w' = w;
    goes_on = refl;
    left = e;
    grows = Extends-refl w.history;
    applied = tt;
  }
  run_worker-Handled (key ∷ keys) w cached e =
      let turn = process_next_item-Turn key keys w (cached key (Memᴰ.head refl)) e in
      let rest = run_worker-Handled keys turn.w' (λ j m. cached j (Memᴰ.tail m)) turn.left in
      rw (turn.goes_on, run_worker)
        (record {
          w' = rest.w';
          goes_on = rest.goes_on;
          left = rest.left;
          grows = Extends-trans w.history turn.w'.history rest.w'.history turn.grows rest.grows;
          applied = (
            IsApplied-IsStable k (receiver_of key) turn.w'.history rest.w'.history rest.grows
                turn.applied,
            rest.applied,
          );
        })

  -- Where no call is refused, the informer's cache has a policy for each waiting key, and no key is added
  -- meanwhile, the worker has no panic in as many turns as there are keys, and after them it goes on, no
  -- key waits, and the policy of each of them has been carried out in each namespace of its scope.
  pub run_worker-IsApplied :
      (w : Worker Q)
      → ((key : Text) → Memᴰ key (waiting w.queue) → IsCached get_by_key receiver_of key)
      → (w' : Worker Q) × (run_worker q k get_by_key (length (waiting w.queue)) w
          ≡ still_running w')
        × (waiting w'.queue ≡ [])
        × All (λ key. IsApplied k (receiver_of key) w'.history) (waiting w.queue)
  run_worker-IsApplied w cached =
      let handled = run_worker-Handled (waiting w.queue) w cached refl in
      (handled.w', handled.goes_on, handled.left, handled.applied)
