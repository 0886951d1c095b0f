-- ===== src/Logger/Sender/Deliveries.antt =====
-- To whom a round of the sender posts the logs.
use kubernetes_cluster_monit.Logger.Sender.{
  SenderEvent, took_receivers, got_page, posted, Peers, Pace, after_pause, at_once, post_url,
  send_to, send_all, read_body, send_round,
}
use kubernetes_cluster_monit.Prelude.{
  ◌≡◌, refl, sym, ap, ◌∙◌, none, some, List, [], ◌∷◌, ◌++◌, map, append-nil, append_assoc,
}
use kubernetes_cluster_monit.Prelude.Program.{
  next, return, Prog, Reply, for_each, program, Extends, Extends-refl, Extends-trans,
}
use kubernetes_cluster_monit.Prelude.Text.{Text}
use kubernetes_cluster_monit.Receiver.{Dest, Receiver}

-- The posts of a record, the oldest first.
abbrev pub deliveries : List SenderEvent → List (Text × Text)
deliveries [] = []
deliveries (took_receivers r ∷ h) = deliveries h
deliveries (got_page r ∷ h) = deliveries h
deliveries (posted url form err ∷ h) = deliveries h ++ (url, form) ∷ []

-- The logs that were fetched for a round, and the resources that were listed for it.
pub record Sent : Type 0 where
  pub form : Text
  pub items : List Receiver

-- The resources that the last listing gave.
abbrev pub last_listed : List SenderEvent → List Receiver
last_listed [] = []
last_listed (took_receivers r ∷ h) = r.value
last_listed (got_page r ∷ h) = last_listed h
last_listed (posted url form err ∷ h) = last_listed h

-- What is to be sent when the endpoint has answered: nothing, if the logs could not be fetched or read.
abbrev pub fetched : Reply (Reply Text) → List Receiver → List Sent
fetched page items = elim page.error [
  | some err ↦ []
  | none ↦ elim page.value.error [
    | some err ↦ []
    | none ↦ record { form = page.value.value; items = items } ∷ []
  ]
]

-- For each answer of the endpoint with logs, the logs and the resources listed last before, the oldest
-- first.
abbrev pub rounds_fetched : List SenderEvent → List Sent
rounds_fetched [] = []
rounds_fetched (took_receivers r ∷ h) = rounds_fetched h
rounds_fetched (got_page r ∷ h) = rounds_fetched h ++ fetched r (last_listed h)
rounds_fetched (posted url form err ∷ h) = rounds_fetched h

-- All destinations of all resources, in order.
abbrev pub destinations : List Receiver → List Dest
destinations [] = []
destinations (item ∷ items) = item.spec.destination ++ destinations items

abbrev pub request : Text → Dest → Text × Text
request form addr = (post_url addr, form)

module _ (p : Peers) (form : Text) where
  -- A loop goes on, and has made exactly these posts.
  pub record Sends (m : Prog SenderEvent Pace (Unit {0})) (dests : List Dest) (h : List SenderEvent)
      : Type 0 where
    pub after : List SenderEvent
    pub goes_on : m h ≡ (next tt, after)
    pub grows : Extends h after
    pub same_rounds : rounds_fetched after ≡ rounds_fetched h
    pub made : deliveries after ≡ deliveries h ++ map (request form) dests

  send_to-Sends :
      (dests : List Dest) (h : List SenderEvent) → Sends (for_each (send_to p form) dests) dests h
  unfolding for_each program send_to
  send_to-Sends [] h = record {
    after = h;
    goes_on = refl;
    grows = Extends-refl h;
    same_rounds = refl;
    made = sym (append-nil (deliveries h));
  }
  send_to-Sends (a ∷ dests) h =
      let rest = send_to-Sends dests (posted (post_url a) form (p.post h (post_url a) form) ∷ h) in
      record {
        after = rest.after;
        goes_on = rest.goes_on;
        same_rounds = rest.same_rounds;
        grows =
            Extends-trans h _ rest.after
              (posted (post_url a) form (p.post h (post_url a) form) ∷ [], refl) rest.grows;
        made = rest.made ∙ append_assoc (deliveries h) _ _;
      }

  map-destinations :
      (ds es : List Dest)
      → map (request form) (ds ++ es) ≡ map (request form) ds ++ map (request form) es
  map-destinations [] es = refl
  map-destinations (d ∷ ds) es = ap (◌∷◌ (request form d)) (map-destinations ds es)

  pub send_all-Sends :
      (items : List Receiver) (h : List SenderEvent)
      → Sends (send_all p form items) (destinations items) h
  unfolding for_each program send_all
  send_all-Sends [] h = record {
    after = h;
    goes_on = refl;
    grows = Extends-refl h;
    same_rounds = refl;
    made = sym (append-nil (deliveries h));
  }
  send_all-Sends (item ∷ items) h =
      let first = send_to-Sends item.spec.destination h in
      let rest = send_all-Sends items first.after in
      record {
        after = rest.after;
        goes_on = rw first.goes_on rest.goes_on;
        same_rounds = rest.same_rounds ∙ first.same_rounds;
        grows = Extends-trans h first.after rest.after first.grows rest.grows;
        made =
            rest.made
            ∙ ap (λ l. l ++ map (request form) (destinations items)) first.made
            ∙ append_assoc (deliveries h) _ _
            ∙ ap (◌++◌ (deliveries h))
                (sym (map-destinations item.spec.destination (destinations items)));
      }

-- Where the resources are listed and the logs are fetched, one round posts the logs once to each
-- destination of each resource, in order, whatever the destinations answer, and the next round comes
-- after the pause.
pub send_round-deliveries :
    (p : Peers) (h : List SenderEvent) (items : List Receiver) (form : Text)
    → p.receivers h ≡ record { value = items; error = none }
    → p.get_page (took_receivers (record { value = items; error = none }) ∷ h)
      ≡ record { value = record { value = form; error = none }; error = none }
    → ((send_round p h).0 ≡ next after_pause)
      × (deliveries (send_round p h).1 ≡ deliveries h ++ map (request form) (destinations items))
unfolding send_round program read_body
send_round-deliveries p h items form r g =
    let got : List SenderEvent =
      got_page (record { value = record { value = form; error = none }; error = none })
      ∷ took_receivers (record { value = items; error = none })
      ∷ h in
    let sent = send_all-Sends p form items got in rw (r, g) (rw sent.goes_on (refl, sent.made))

-- Where the logs cannot be fetched, the round makes no post, and the next one comes at once.
pub send_round-at_once :
    (p : Peers) (h : List SenderEvent) (items : List Receiver) (page : Reply Text) (err : Text)
    → p.receivers h ≡ record { value = items; error = none }
    → p.get_page (took_receivers (record { value = items; error = none }) ∷ h)
      ≡ record { value = page; error = some err }
    → ((send_round p h).0 ≡ return at_once) × (deliveries (send_round p h).1 ≡ deliveries h)
unfolding send_round program
send_round-at_once p h items page err r g = rw (r, g) (refl, refl)
