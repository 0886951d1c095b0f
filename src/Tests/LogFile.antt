-- ===== src/Tests/LogFile.antt =====
-- The theorems on the log file of the collector, for a collector that reads no logs.
use kubernetes_cluster_monit.Clients.{ClientGo}
use kubernetes_cluster_monit.Kube.{Pod}
use kubernetes_cluster_monit.Logger.Collector.Rounds.{World}
use kubernetes_cluster_monit.Logger.Collector.Run.{not_there, run_rounds, collector_main, log_file}
use kubernetes_cluster_monit.Logger.Collector.Run.Requests.{
  whole_requests, other_requests, collector_main-whole_requests,
}
use kubernetes_cluster_monit.Logger.Endpoint.Retrieve.{array_text}
use kubernetes_cluster_monit.Logger.Endpoint.Retrieve.Pipeline.{
  IsObjects, marshalled, present, joined,
}
use kubernetes_cluster_monit.Logger.Endpoint.Retrieve.Runs.{round_logs, run_rounds-array_text}
use kubernetes_cluster_monit.Logger.Entry.{LogInfo}
use kubernetes_cluster_monit.Prelude.{
  ◌≤◌, ◌≡◌, refl, false, Option, none, some, List, [], ◌∷◌, ◌++◌, map, All,
}
use kubernetes_cluster_monit.Prelude.Text.{Text, codes, starts_with}
use kubernetes_cluster_monit.Tests.Fixtures.{web_pod, reply_of}

abbrev injected_pod : Pod
injected_pod = record web_pod {
  annotations = some ((codes "sidecar-injector-webhook.rohit.in/status", codes "injected") ∷ []);
}

-- The objects of a round: nothing for no logs, else one object.
abbrev one_object : List LogInfo → Option Text
one_object [] = none
one_object (x ∷ xs) = some (codes "a")

one_object-IsObjects : (lss : List (List LogInfo)) → All IsObjects (present (map one_object lss))
unfolding starts_with
one_object-IsObjects [] = tt
one_object-IsObjects ([] ∷ lss) = one_object-IsObjects lss
one_object-IsObjects ((x ∷ xs) ∷ lss) = (
  record { no_backslash = refl; single_commas = (refl, (refl, (refl, tt))) },
  one_object-IsObjects lss,
)

abbrev file_world : World
file_world = record {
  pods = λ h. reply_of (injected_pod ∷ []);
  stream = λ h ns name since. reply_of (codes "type=liveness-check");
  scan = λ t. t ∷ [];
  marshal = λ logs. reply_of (marshalled (one_object logs));
}

abbrev file_library : ClientGo Text Text Text
file_library = record {
  build_config_from_flags = λ path. reply_of path;
  in_cluster_config = reply_of [];
  new_for_config = λ config. reply_of [];
  new_receivers_for_config = λ config. reply_of [];
}

abbrev connected : Text → World
connected client = file_world

collector_main-whole_requests_example :
    (whole_requests (collector_main file_library connected [] 3 not_there none []).1 ≤ 1)
    × (other_requests (collector_main file_library connected [] 3 not_there none []).1 ≤ 0)
collector_main-whole_requests_example =
    collector_main-whole_requests file_library connected [] 3 not_there none []

run_rounds-array_text_example :
    array_text (log_file [] (run_rounds file_world 2 false []).1)
    ≡ b'['
      ∷ (joined (
            present
              (map one_object (round_logs file_world.scan (run_rounds file_world 2 false []).1)))
          ++ b']' ∷ [])
run_rounds-array_text_example =
    run_rounds-array_text file_world one_object (λ logs. refl) 2 false
      (one_object-IsObjects (round_logs file_world.scan (run_rounds file_world 2 false []).1))
