-- ===== src/Controller/Worker/Retries.antt =====
-- How often a failing key is tried.
use kubernetes_cluster_monit.Controller.Handler.{Object, receiver}
use kubernetes_cluster_monit.Controller.Worker.{
  Workqueue, Found, Worker, requeue, add_key, on_add, on_update, handle_item, process_next_item,
  on_delete,
}
use kubernetes_cluster_monit.Kube.{History, Kube}
use kubernetes_cluster_monit.Prelude.{
  ◌≡◌, refl, ◌∙◌, subst, inl, inr, Bool, false, Option, none, some, arith, ltb, Bool-cases,
}
use kubernetes_cluster_monit.Prelude.Program.{Reply}
use kubernetes_cluster_monit.Prelude.Text.{Text, text_eq, text_eq_iff}
use kubernetes_cluster_monit.Receiver.{Receiver}

-- What the documentation of `workqueue` says of the number of requeues.
pub record CountsRequeues {Q : Type 0} (q : Workqueue Q) : Type 0 where
  pub get_keeps : (s : Q) (key : Text) → q.num_requeues (q.get s).1 key ≡ q.num_requeues s key
  pub done_keeps : (s : Q) (j key : Text) → q.num_requeues (q.done s j) key ≡ q.num_requeues s key
  pub add_keeps : (s : Q) (j key : Text) → q.num_requeues (q.add s j) key ≡ q.num_requeues s key
  pub forget_clears : (s : Q) (key : Text) → q.num_requeues (q.forget s key) key ≡ 0
  pub forget_keeps :
      (s : Q) (j key : Text)
      → text_eq j key ≡ false
      → q.num_requeues (q.forget s j) key ≡ q.num_requeues s key
  pub limited_keeps :
      (s : Q) (j key : Text)
      → text_eq j key ≡ false
      → q.num_requeues (q.add_rate_limited s j) key ≡ q.num_requeues s key

-- What can happen to the controller: events of the informer, and turns of the worker.
pub data Step {Q : Type 0} (q : Workqueue Q) (k : Kube) (key_func : Object → Reply Text)
    : Worker Q → Worker Q → Type 0 where
  added : {w : Worker Q} (obj : Object) → Step q k key_func w (on_add q key_func obj w)
  updated :
      {w : Worker Q} (old new : Receiver) → Step q k key_func w (on_update q key_func old new w)
  deleted :
      {w w' : Worker Q} (obj : Object)
      → on_delete q k key_func obj w ≡ some w'
      → Step q k key_func w w'
  processed :
      {w w' : Worker Q} (get_by_key : History → Text → Found) (more : Bool)
      → process_next_item q k get_by_key w ≡ some (more, w')
      → Step q k key_func w w'

pub data Reach {Q : Type 0} (q : Workqueue Q) (k : Kube) (key_func : Object → Reply Text)
    (w₀ : Worker Q) : Worker Q → Type 0 where
  here : Reach q k key_func w₀ w₀
  step :
      {w w' : Worker Q}
      → Reach q k key_func w₀ w
      → Step q k key_func w w'
      → Reach q k key_func w₀ w'

module _ {Q : Type 0} {q : Workqueue Q} (laws : CountsRequeues q) (k : Kube)
    (key_func : Object → Reply Text) where
  open laws use {get_keeps, done_keeps, add_keeps, forget_clears, forget_keeps, limited_keeps}

  abbrev NoneCounted : Q → Type 0
  NoneCounted s = (key : Text) → q.num_requeues s key ≡ 0

  -- Whatever was done to the key before, the `Forget` behind it clears the count.
  forget-NoneCounted :
      (s s' : Q) (key : Text)
      → ((j : Text) → text_eq key j ≡ false → q.num_requeues s' j ≡ q.num_requeues s j)
      → NoneCounted s
      → NoneCounted (q.done (q.forget s' key) key)
  forget-NoneCounted s s' key same n j = elim (Bool-cases (text_eq key j)) [
    | inl e ↦
        done_keeps _ key j
        ∙ subst (λ i. q.num_requeues (q.forget s' key) i ≡ 0) ((text_eq_iff key j).0 e)
            (forget_clears s' key)
    | inr e ↦ done_keeps _ key j ∙ forget_keeps s' key j e ∙ same j e ∙ n j
  ]

  requeue_keeps :
      (err : Option Text) (s : Q) (key j : Text)
      → text_eq key j ≡ false
      → q.num_requeues (requeue q err s key) j ≡ q.num_requeues s j
  unfolding requeue
  requeue_keeps none s key j e = refl
  requeue_keeps (some err) s key j e = elim (Bool-cases (ltb (q.num_requeues s key) 5)) [
    | inl l ↦ rw l (limited_keeps s key j e)
    | inr l ↦ rw l (forget_keeps s key j e)
  ]

  handle_item-NoneCounted :
      (found : Found) (s : Q) (key : Text) (h : History) {more : Bool} {w' : Worker Q}
      → NoneCounted s
      → handle_item q k found s key h ≡ some (more, w')
      → NoneCounted w'.queue
  unfolding handle_item
  handle_item-NoneCounted found s key h {w' = w'} n e =
      subst NoneCounted queue_is
        (forget-NoneCounted s (requeue q found.error s key) key (requeue_keeps found.error s key) n)
    where
      queue_is : q.done (q.forget (requeue q found.error s key) key) key ≡ w'.queue
      queue_is = ground arith

  process_next_item-NoneCounted :
      (get_by_key : History → Text → Found) (w : Worker Q) {more : Bool} {w' : Worker Q}
      → NoneCounted w.queue
      → process_next_item q k get_by_key w ≡ some (more, w')
      → NoneCounted w'.queue
  unfolding process_next_item
  process_next_item-NoneCounted get_by_key w {more} {w'} n = by_key (q.get w.queue).0 refl
    where
      after_get : NoneCounted (q.get w.queue).1
      after_get j = get_keeps w.queue j ∙ n j

      by_key :
          (next_key : Option Text)
          → (q.get w.queue).0 ≡ next_key
          → process_next_item q k get_by_key w ≡ some (more, w')
          → NoneCounted w'.queue
      by_key none g e = subst NoneCounted (ground arith) after_get
      by_key (some key) g e =
          handle_item-NoneCounted (get_by_key w.history key) (q.get w.queue).1 key w.history
            after_get (rw (g, process_next_item) at e)

  add_key-NoneCounted : (key : Reply Text) (s : Q) → NoneCounted s → NoneCounted (add_key q key s)
  add_key-NoneCounted key s n j = ground (arith, add_keeps s key.value j, n j)

  Step-NoneCounted :
      {w w' : Worker Q} → Step q k key_func w w' → NoneCounted w.queue → NoneCounted w'.queue
  unfolding on_add on_update on_delete
  Step-NoneCounted (added {w} obj) n = add_key-NoneCounted (key_func obj) w.queue n
  Step-NoneCounted (updated {w} old new) n =
      λ j. ground (arith, n j, add_key-NoneCounted (key_func (receiver new)) w.queue n j)
  Step-NoneCounted (deleted {w} {w'} obj e) n =
      subst NoneCounted (ground arith) (add_key-NoneCounted (key_func obj) w.queue n)
  Step-NoneCounted (processed {w} get_by_key more e) n =
      process_next_item-NoneCounted get_by_key w n e

  Reach-NoneCounted :
      {w₀ w : Worker Q} → Reach q k key_func w₀ w → NoneCounted w₀.queue → NoneCounted w.queue
  Reach-NoneCounted here n = n
  Reach-NoneCounted (step r s) n = Step-NoneCounted s (Reach-NoneCounted r n)

  -- From a queue with no requeues counted, after any events and any turns of the worker, a key whose
  -- lookup fails is always put back with a delay: the branch for "no more retries" is never taken.
  pub requeue-Reach :
      {w₀ w : Worker Q}
      → Reach q k key_func w₀ w
      → ((key : Text) → q.num_requeues w₀.queue key ≡ 0)
      → (err key : Text)
      → requeue q (some err) (q.get w.queue).1 key ≡ q.add_rate_limited (q.get w.queue).1 key
  unfolding requeue
  requeue-Reach {w = w} r n err key =
      let none_counted = get_keeps w.queue key ∙ Reach-NoneCounted r n key in rw none_counted
