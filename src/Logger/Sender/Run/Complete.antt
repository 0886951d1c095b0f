-- ===== src/Logger/Sender/Run/Complete.antt =====
-- Each round of the sender that has logs posts them once to all destinations.
use kubernetes_cluster_monit.Clients.{ClientGo, get_clients}
use kubernetes_cluster_monit.Logger.Sender.{
  SenderEvent, took_receivers, Peers, Pace, after_pause, send_all, read_body, send_round,
}
use kubernetes_cluster_monit.Logger.Sender.Deliveries.{
  deliveries, Sent, rounds_fetched, destinations, request, send_all-Sends,
}
use kubernetes_cluster_monit.Logger.Sender.Run.{run_from, sender_main}
use kubernetes_cluster_monit.Prelude.{
  ℕ, zero, suc, ◌≡◌, refl, sym, ap, ◌∙◌, inl, inr, none, List, [], ◌∷◌, ◌++◌, map, append-nil,
  append_assoc, Option-cases,
}
use kubernetes_cluster_monit.Prelude.Program.{
  Out, next, return, panic, pure, and_then, ◌>>◌, ended, program,
}
use kubernetes_cluster_monit.Prelude.Text.{Text}

-- The posts of some rounds, in order.
abbrev pub posts : List Sent → List (Text × Text)
posts [] = []
posts (r ∷ rs) = map (request r.form) (destinations r.items) ++ posts rs

posts-append :
    (rs : List Sent) (r : Sent)
    → posts (rs ++ r ∷ []) ≡ posts rs ++ map (request r.form) (destinations r.items)
posts-append [] r = append-nil _
posts-append (q ∷ rs) r = rw (posts-append rs r) (
    sym (
      append_assoc (map (request q.form) (destinations q.items)) (posts rs)
        (map (request r.form) (destinations r.items))))

-- The posts of the record are those of its rounds.
abbrev Accounts : List SenderEvent → Type 0
Accounts h = deliveries h ≡ posts (rounds_fetched h)

module _ (p : Peers) where
  -- A round with its logs and resources in hand.
  send_all-Accounts :
      (r : Sent) (h h' : List SenderEvent)
      → deliveries h' ≡ posts (rounds_fetched h)
      → rounds_fetched h' ≡ rounds_fetched h ++ r ∷ []
      → Accounts ((send_all p r.form r.items >> pure after_pause) h').1
  unfolding program
  send_all-Accounts r h h' a f =
      let sent = send_all-Sends p r.form r.items h' in
      rw sent.goes_on (
        sent.made
        ∙ ap (λ l. l ++ map (request r.form) (destinations r.items)) a
        ∙ sym (posts-append (rounds_fetched h) r)
        ∙ ap posts (sym (sent.same_rounds ∙ f)))

  send_round-Accounts : (h : List SenderEvent) → Accounts h → Accounts (send_round p h).1
  unfolding send_round program read_body
  send_round-Accounts h a =
      let items = (p.receivers h).value in
      let took = took_receivers (record { value = items; error = none }) ∷ h in
      let page = p.get_page took in
      elim (Option-cases (p.receivers h).error) [
        | inr (err, e) ↦ rw e a
        | inl e ↦ rw e (elim (Option-cases page.error) [
          | inr (err, e') ↦ rw e' (a ∙ ap posts (sym (append-nil (rounds_fetched h))))
          | inl e' ↦ rw e' (elim (Option-cases page.value.error) [
            | inr (err, c) ↦ rw c (a ∙ ap posts (sym (append-nil (rounds_fetched h))))
            | inl c ↦
                rw c
                  (send_all-Accounts (record { form = page.value.value; items = items }) h _ a refl)
          ])
        ])
      ]

  run_from-Accounts :
      (rounds : ℕ) (paces : List Pace) (h : List SenderEvent)
      → Accounts h
      → Accounts (run_from p rounds paces h).1
  unfolding run_from program
  run_from-Accounts zero paces h a = a
  run_from-Accounts (suc rounds) paces h a =
      by_out (λ more. run_from-Accounts rounds more) (send_round p h).0 (send_round p h).1
        (send_round-Accounts h a)
    where
      by_out :
          ((more : List Pace) (h' : List SenderEvent)
            → Accounts h'
            → Accounts (run_from p rounds more h').1)
          → (o : Out Pace Pace) (h' : List SenderEvent) → Accounts h'
          → Accounts
              (and_then {R = Unit {0}}
                (ended o h').0
                (λ pace. run_from p rounds (paces ++ pace ∷ []))
                (ended {S = Unit {0}} o h').1).1
      by_out later (next pace) h' b = later (paces ++ pace ∷ []) h' b
      by_out later (return pace) h' b = later (paces ++ pace ∷ []) h' b
      by_out later panic h' b = b

-- However many rounds the sender runs, and whatever is answered, also where it gets no clients or a round
-- ends the program: what it has posted is exactly, in order, for each answer of the endpoint with logs,
-- these logs, once to each destination of each of the resources that were listed last before.
pub sender_main-posts :
    {RestConfig Client Receivers : Type 0} (lib : ClientGo RestConfig Client Receivers)
    (connect : Receivers → Peers) (kubeconfig : Text) (rounds : ℕ)
    → deliveries (sender_main lib connect kubeconfig rounds []).1
      ≡ posts (rounds_fetched (sender_main lib connect kubeconfig rounds []).1)
unfolding sender_main program
sender_main-posts lib connect kubeconfig rounds = elim (Option-cases (get_clients lib kubeconfig)) [
  | inl e ↦ rw (e, sender_main) refl
  | inr (clients, e) ↦ rw (e, sender_main) (run_from-Accounts (connect clients.1) rounds [] [] refl)
]
