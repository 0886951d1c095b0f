-- ===== src/Logger/Sender.antt =====
-- One round of the loop of `main` in `logger/sender/sender.go`. The API server and HTTP are
-- parameters.
pub mod Deliveries
pub mod Run
use kubernetes_cluster_monit.Prelude.{Option, none, some, List, ◌∷◌, ◌++◌}
use kubernetes_cluster_monit.Prelude.Program.{
  Prog, Reply, pure, crash, call, ◌>>=◌, ◌>>◌, check, for_each,
}
use kubernetes_cluster_monit.Prelude.Text.{Text, codes}
use kubernetes_cluster_monit.Receiver.{Dest, Receiver}

pub data SenderEvent : Type 0 where
  took_receivers : Reply (List Receiver) → SenderEvent
  got_page : Reply (Reply Text) → SenderEvent
  posted : (url form : Text) → (error : Option Text) → SenderEvent

-- `get_page` is `http.Get` of the endpoint's address, and inside of it `ioutil.ReadAll`; `post` is
-- `http.PostForm` with the field `data`.
pub record Peers : Type 0 where
  pub receivers : List SenderEvent → Reply (List Receiver)
  pub get_page : List SenderEvent → Reply (Reply Text)
  pub post : List SenderEvent → (url form : Text) → Option Text

-- How the next round begins: after the pause, or at once.
pub data Pace : Type 0 where
  after_pause : Pace
  at_once : Pace

-- `posturl`
abbrev pub post_url : Dest → Text
post_url addr = codes "http://" ++ (addr.ip_address ++ (b':' ∷ (addr.port ++ addr.endpoint)))

module _ (p : Peers) where
  -- The body of the loop over the destinations; an error is a `continue`.
  unfoldable pub send_to : Text → Dest → Prog SenderEvent Pace (Unit {0})
  send_to form addr = do
    err ← call (λ h. p.post h (post_url addr) form) (posted (post_url addr) form)
    pure tt

  -- The loop over the custom resources.
  unfoldable pub send_all : Text → List Receiver → Prog SenderEvent Pace (Unit {0})
  unfolding send_to
  send_all form items = for_each (λ item. for_each (send_to form) item.spec.destination) items

  -- A body that cannot be read ends the program, by `log.Fatal`.
  unfoldable pub read_body : Reply Text → Prog SenderEvent Pace Text
  read_body reply = elim reply.error [ none ↦ pure reply.value | some err ↦ crash ]

  unfoldable pub send_round : Prog SenderEvent Pace Pace
  unfolding send_all read_body
  send_round = do
    reply ← call p.receivers took_receivers
    items ← check reply after_pause
    page ← call p.get_page got_page
    content ← check page at_once
    form ← read_body content
    send_all form items
    pure after_pause
