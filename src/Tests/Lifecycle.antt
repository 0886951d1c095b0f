-- ===== src/Tests/Lifecycle.antt =====
-- The theorem on the controller's `Run`, for a controller that syncs and is then told to stop.
use kubernetes_cluster_monit.Clients.{ClientGo, get_client_config, get_clients}
use kubernetes_cluster_monit.Controller.Handler.{Object, receiver}
use kubernetes_cluster_monit.Controller.Worker.{on_add}
use kubernetes_cluster_monit.Controller.Worker.Lifecycle.{
  syncing, working, Lifecycle, controller_main, synced, closed, added,
}
use kubernetes_cluster_monit.Controller.Worker.Lifecycle.Stuck.{
  here, Steps, and_step, IsWorking, controller_main-IsWorking,
}
use kubernetes_cluster_monit.Kube.{Kube}
use kubernetes_cluster_monit.Prelude.{refl, true, false, none, []}
use kubernetes_cluster_monit.Prelude.Program.{Reply}
use kubernetes_cluster_monit.Prelude.Text.{Text, text_eq}
use kubernetes_cluster_monit.Tests.Fixtures.{web, reply_of, server, web_receiver}
use kubernetes_cluster_monit.Tests.Queue.{Queue, counting_queue}
use kubernetes_cluster_monit.Tests.Worker.{cached_receiver}

abbrev controller_library : ClientGo Text Kube Text
controller_library = record {
  build_config_from_flags = λ path. reply_of path;
  in_cluster_config = reply_of [];
  new_for_config = λ config. reply_of (server none);
  new_receivers_for_config = λ config. reply_of [];
}

abbrev first_lifecycle : Lifecycle Queue
first_lifecycle = record {
  worker = record { queue = ([], []); history = [] };
  phase = syncing;
  stop_closed = false;
  shut = false;
}

abbrev name_key : Object → Reply Text
name_key o = reply_of web

abbrev told_to_stop : Lifecycle Queue
told_to_stop = record first_lifecycle {
  worker = on_add counting_queue name_key (receiver web_receiver) first_lifecycle.worker;
  phase = working;
  stop_closed = true;
}

abbrev started : Lifecycle Queue
started = record first_lifecycle { phase = working }

stopping : Steps counting_queue (server none) cached_receiver name_key name_key started told_to_stop
stopping = and_step (and_step here (added (receiver web_receiver) refl)) (closed refl)

controller_main-IsWorking_example : IsWorking told_to_stop
unfolding controller_main get_clients get_client_config text_eq
controller_main-IsWorking_example =
    controller_main-IsWorking controller_library [] counting_queue ([], []) [] cached_receiver
      name_key name_key (server none) {s = first_lifecycle} {s' = started} refl
      (and_step here (synced refl)) refl stopping
