-- ===== src/Controller/Worker/Lifecycle/Stuck.antt =====
-- When `Run` of the controller returns.
use kubernetes_cluster_monit.Clients.{ClientGo, get_clients}
use kubernetes_cluster_monit.Controller.Handler.{Object}
use kubernetes_cluster_monit.Controller.Worker.{Workqueue, Found}
use kubernetes_cluster_monit.Controller.Worker.Lifecycle.{
  syncing, working, returned, crashed, Lifecycle, until_stop, controller_main, Step, synced,
  not_synced, item_done, worker_done, worker_panics, pause_over, closed, added, updated, deleted,
  deletion_panics,
}
use kubernetes_cluster_monit.Kube.{History, Kube}
use kubernetes_cluster_monit.Prelude.{
  ◌≡◌, refl, subst, ◌⊎◌, inl, inr, true, false, Option, none, some, Bool-cases, Option-cases,
}
use kubernetes_cluster_monit.Prelude.Program.{Reply}
use kubernetes_cluster_monit.Prelude.Text.{Text}

-- Any number of steps.
pub data Steps {Q : Type 0} (q : Workqueue Q) (k : Kube) (get_by_key : History → Text → Found)
    (key_func deleted_key_func : Object → Reply Text) (s₀ : Lifecycle Q)
    : Lifecycle Q → Type 0 where
  here : Steps q k get_by_key key_func deleted_key_func s₀ s₀
  and_step :
      {s s' : Lifecycle Q}
      → Steps q k get_by_key key_func deleted_key_func s₀ s
      → Step q k get_by_key key_func deleted_key_func s s'
      → Steps q k get_by_key key_func deleted_key_func s₀ s'

-- In the worker with a queue that is not shut down, or ended by a panic.
abbrev pub IsWorking : {Q : Type 0} → Lifecycle Q → Type 0
IsWorking s = ((s.phase ≡ working) × (s.shut ≡ false)) ⊎ (s.phase ≡ crashed)

-- Before the cache has synced, or returned with a shut queue because the channel was closed before.
abbrev IsBefore : {Q : Type 0} → Lifecycle Q → Type 0
IsBefore s =
    ((s.phase ≡ syncing) × (s.shut ≡ false))
    ⊎ ((s.phase ≡ returned) × (s.shut ≡ true) × (s.stop_closed ≡ true))

-- `wait.Until` enters the worker, unless the channel is closed.
until_stop-cases :
    {Q : Type 0} (s : Lifecycle Q)
    → s.shut ≡ false
    → IsBefore (until_stop s) ⊎ IsWorking (until_stop s)
until_stop-cases s f = elim (Bool-cases s.stop_closed) [
  | inl c ↦ rw c (inl (inr (refl, refl, refl)))
  | inr o ↦ rw o (inr (inl (refl, f)))
]

module _ {Q : Type 0} {q : Workqueue Q} {k : Kube} {get_by_key : History → Text → Found}
    {key_func deleted_key_func : Object → Reply Text} where
  Step-IsWorking :
      {s s' : Lifecycle Q}
      → Step q k get_by_key key_func deleted_key_func s s'
      → IsWorking s
      → IsWorking s'
  Step-IsWorking (synced e) (inl (w, f)) = absurd (cc)
  Step-IsWorking (not_synced e c) (inl (w, f)) = absurd (cc)
  Step-IsWorking (item_done key w' e g p) (inl (w, f)) = inl (w, f)
  Step-IsWorking (worker_done w' e t p) (inl (w, f)) = absurd (cc)
  Step-IsWorking (worker_panics e p) (inl (w, f)) = inr refl
  Step-IsWorking (pause_over e) (inl (w, f)) = absurd (cc)
  Step-IsWorking (closed a) (inl (w, f)) = inl (w, f)
  Step-IsWorking (added o a) (inl (w, f)) = inl (w, f)
  Step-IsWorking (updated old new a) (inl (w, f)) = inl (w, f)
  Step-IsWorking (deleted o w' a e) (inl (w, f)) = inl (w, f)
  Step-IsWorking (deletion_panics o a e) (inl (w, f)) = inr refl
  Step-IsWorking (synced e) (inr c) = absurd (cc)
  Step-IsWorking (not_synced e t) (inr c) = absurd (cc)
  Step-IsWorking (item_done key w' e g p) (inr c) = inr c
  Step-IsWorking (worker_done w' e t p) (inr c) = absurd (cc)
  Step-IsWorking (worker_panics e p) (inr c) = inr refl
  Step-IsWorking (pause_over e) (inr c) = absurd (cc)
  Step-IsWorking (closed a) (inr c) = inr c
  Step-IsWorking (added o a) (inr c) = inr c
  Step-IsWorking (updated old new a) (inr c) = inr c
  Step-IsWorking (deleted o w' a e) (inr c) = inr c
  Step-IsWorking (deletion_panics o a e) (inr c) = inr refl

  Steps-IsWorking :
      {s s' : Lifecycle Q}
      → Steps q k get_by_key key_func deleted_key_func s s'
      → IsWorking s
      → IsWorking s'
  Steps-IsWorking here w = w
  Steps-IsWorking (and_step steps last) w = Step-IsWorking last (Steps-IsWorking steps w)

  Step-IsBefore :
      {s s' : Lifecycle Q}
      → Step q k get_by_key key_func deleted_key_func s s'
      → IsBefore s
      → IsBefore s' ⊎ IsWorking s'
  Step-IsBefore {s = s} (synced e) (inl (p, f)) = until_stop-cases s f
  Step-IsBefore (not_synced e c) (inl (p, f)) = inl (inr (refl, refl, c))
  Step-IsBefore (item_done key w e g i) (inl (p, f)) = absurd (cc)
  Step-IsBefore (worker_done w e t i) (inl (p, f)) = absurd (cc)
  Step-IsBefore (worker_panics e i) (inl (p, f)) = inr (inr refl)
  Step-IsBefore (pause_over e) (inl (p, f)) = absurd (cc)
  Step-IsBefore (closed a) (inl (p, f)) = inl (inl (p, f))
  Step-IsBefore (added o a) (inl (p, f)) = inl (inl (p, f))
  Step-IsBefore (updated old new a) (inl (p, f)) = inl (inl (p, f))
  Step-IsBefore (deleted o w a e) (inl (p, f)) = inl (inl (p, f))
  Step-IsBefore (deletion_panics o a e) b = inr (inr refl)
  Step-IsBefore (synced e) (inr (p, t, c)) = absurd (cc)
  Step-IsBefore (not_synced e c') (inr (p, t, c)) = absurd (cc)
  Step-IsBefore (item_done key w e g i) (inr (p, t, c)) = absurd (cc)
  Step-IsBefore (worker_done w e t' i) (inr (p, t, c)) = absurd (cc)
  Step-IsBefore (worker_panics e i) (inr (p, t, c)) = absurd (cc)
  Step-IsBefore (pause_over e) (inr (p, t, c)) = absurd (cc)
  Step-IsBefore (closed a) (inr (p, t, c)) = inl (inr (p, t, refl))
  Step-IsBefore (added o a) (inr (p, t, c)) = inl (inr (p, t, c))
  Step-IsBefore (updated old new a) (inr (p, t, c)) = inl (inr (p, t, c))
  Step-IsBefore (deleted o w a e) (inr (p, t, c)) = inl (inr (p, t, c))

  Steps-IsBefore :
      {s s' : Lifecycle Q}
      → Steps q k get_by_key key_func deleted_key_func s s'
      → IsBefore s
      → IsBefore s' ⊎ IsWorking s'
  Steps-IsBefore here b = inl b
  Steps-IsBefore (and_step steps last) b = elim (Steps-IsBefore steps b) [
    | inl b' ↦ Step-IsBefore last b'
    | inr w ↦ inr (Step-IsWorking last w)
  ]

abbrev Begins : {Q : Type 0} → Option (Kube × Lifecycle Q) → Type 0
Begins none = Unit
Begins (some (k, s)) = (s.phase ≡ syncing) × (s.shut ≡ false)

controller_main-Begins :
    {RestConfig Receivers : Type 0} (lib : ClientGo RestConfig Kube Receivers) (kubeconfig : Text)
    {Q : Type 0} (queue : Q) (h : History)
    → Begins (controller_main lib kubeconfig queue h)
unfolding controller_main
controller_main-Begins lib kubeconfig queue h = elim (Option-cases (get_clients lib kubeconfig)) [
  | inl n ↦ rw (n, controller_main) tt
  | inr (clients, e) ↦ rw (e, controller_main) (refl, refl)
]

before-working :
    {Q : Type 0} (s : Lifecycle Q) → IsBefore s ⊎ IsWorking s → s.phase ≡ working → IsWorking s
before-working s (inl (inl (p, f))) w = absurd (cc)
before-working s (inl (inr (p, t, c))) w = absurd (cc)
before-working s (inr i) w = i

-- Once `Run`, in a controller that `main` starts, is in the worker, it does not leave it: whatever
-- happens, the channel's close included, it stays in the worker, with a queue that is not shut down,
-- unless a panic ends the process. So closing the channel does not end `Run` then.
pub controller_main-IsWorking :
    {RestConfig Receivers : Type 0} (lib : ClientGo RestConfig Kube Receivers) (kubeconfig : Text)
    {Q : Type 0} (q : Workqueue Q) (queue : Q) (h : History) (get_by_key : History → Text → Found)
    (key_func deleted_key_func : Object → Reply Text) (k : Kube) {s s' s'' : Lifecycle Q}
    → controller_main lib kubeconfig queue h ≡ some (k, s)
    → Steps q k get_by_key key_func deleted_key_func s s'
    → s'.phase ≡ working
    → Steps q k get_by_key key_func deleted_key_func s' s''
    → IsWorking s''
controller_main-IsWorking lib kubeconfig q queue h get_by_key key_func deleted_key_func k {s' = s'}
      e st w more =
    Steps-IsWorking more (
      before-working s'
        (Steps-IsBefore st (inl (subst Begins e (controller_main-Begins lib kubeconfig queue h))))
        w)
