-- ===== src/Tests/Worker.antt =====
-- The theorems on what the controller gets done, on the small cluster.
use kubernetes_cluster_monit.Controller.Handler.{receiver, object_created}
use kubernetes_cluster_monit.Controller.Handler.Complete.{object_created-Completes}
use kubernetes_cluster_monit.Controller.Handler.Covered.{IsObliging, IsVisited}
use kubernetes_cluster_monit.Controller.Policy.{policy}
use kubernetes_cluster_monit.Controller.Policy.Scope.{scope}
use kubernetes_cluster_monit.Controller.Selector.{retrieve_expression}
use kubernetes_cluster_monit.Controller.Worker.{Found, Worker}
use kubernetes_cluster_monit.Controller.Worker.Run.{still_running, run_worker}
use kubernetes_cluster_monit.Controller.Worker.Run.Drained.{IsApplied, run_worker-IsApplied}
use kubernetes_cluster_monit.Kube.{History}
use kubernetes_cluster_monit.Prelude.{◌≡◌, refl, true, none, [], ◌∷◌, All}
use kubernetes_cluster_monit.Prelude.Program.{Completes}
use kubernetes_cluster_monit.Prelude.Text.{Text}
use kubernetes_cluster_monit.Receiver.{Receiver}
use kubernetes_cluster_monit.Tests.Fixtures.{web, server, web_receiver}
use kubernetes_cluster_monit.Tests.Queue.{Queue, counting_queue, waiting, counting_queue-HandsOut}

server-IsObliging : IsObliging (server none)
server-IsObliging = record {
  lists = λ h ns sel. refl;
  patches = λ h ns name p. refl;
  deletes = λ h ns name. refl;
  selects = λ s. (s, refl);
  marshals = λ d. refl;
  shows = λ d. refl;
  compares = λ a b. refl;
  encodes = λ p. refl;
}

object_created-Completes_example :
    Completes (object_created (server none) (receiver web_receiver)) [] (λ _ h.
      All
        (λ ns.
          IsVisited
            (server none)
            (policy web_receiver.spec)
            (retrieve_expression web_receiver.spec.label_selector)
            ns
            h)
        (scope web_receiver.spec.namespace))
object_created-Completes_example = object_created-Completes server-IsObliging web_receiver []

abbrev pub cached_receiver : History → Text → Found
cached_receiver h key = record { item = receiver web_receiver; exists = true; error = none }

abbrev receiver_of : Text → Receiver
receiver_of key = web_receiver

abbrev one_waiting : Worker Queue
one_waiting = record { queue = (web ∷ [], []); history = [] }

run_worker-IsApplied_example :
    (w : Worker Queue) × (run_worker counting_queue (server none) cached_receiver 1 one_waiting
      ≡ still_running w)
    × (waiting w.queue ≡ [])
    × All (λ key. IsApplied (server none) web_receiver w.history) (web ∷ [])
run_worker-IsApplied_example =
    run_worker-IsApplied server-IsObliging counting_queue-HandsOut cached_receiver receiver_of
      one_waiting (λ key m h. refl)
