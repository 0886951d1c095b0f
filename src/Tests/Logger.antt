-- ===== src/Tests/Logger.antt =====
-- The logger's theorems on small logs and the small cluster.
use kubernetes_cluster_monit.Clients.{ClientGo}
use kubernetes_cluster_monit.Controller.Policy.{group_label_text}
use kubernetes_cluster_monit.Keys.{group_label_key, action_key}
use kubernetes_cluster_monit.Kube.{Kube}
use kubernetes_cluster_monit.Logger.Collector.{fields, out_of_fuel, process_line}
use kubernetes_cluster_monit.Logger.Collector.Fields.{Field, IsField}
use kubernetes_cluster_monit.Logger.Collector.Lines.{process_line-total}
use kubernetes_cluster_monit.Logger.Collector.RoundTrip.{process_line-fields_text}
use kubernetes_cluster_monit.Logger.Collector.Rounds.{World}
use kubernetes_cluster_monit.Logger.Endpoint.Action.{target_labels, target_selector, take_action}
use kubernetes_cluster_monit.Logger.Endpoint.Action.Audit.{
  Quarantines, WasQuarantined, take_action-Since,
}
use kubernetes_cluster_monit.Logger.Endpoint.Action.Targets.{target_selector-policy}
use kubernetes_cluster_monit.Logger.Endpoint.Request.{handle_action}
use kubernetes_cluster_monit.Logger.Endpoint.Request.Answers.{handle_action-created}
use kubernetes_cluster_monit.Logger.Endpoint.Retrieve.{array_text, retrieve_logs}
use kubernetes_cluster_monit.Logger.Endpoint.Retrieve.Pipeline.{file_text, array_text-file_text}
use kubernetes_cluster_monit.Logger.Endpoint.Retrieve.Tail.{
  IsTail, retrieve_logs-IsTail, IsNegative, retrieve_logs-none_iff,
}
use kubernetes_cluster_monit.Logger.Entry.{LogInfo, blank}
use kubernetes_cluster_monit.Logger.Sender.{Peers}
use kubernetes_cluster_monit.Logger.Sender.Deliveries.{deliveries, rounds_fetched}
use kubernetes_cluster_monit.Logger.Sender.Run.{sender_main}
use kubernetes_cluster_monit.Logger.Sender.Run.Complete.{posts, sender_main-posts}
use kubernetes_cluster_monit.Prelude.{
  ◌≡◌, refl, ◌≢◌, ◌↔◌, true, false, none, some, List, [], ◌∷◌, map, arith, if◌then◌else◌, All,
}
use kubernetes_cluster_monit.Prelude.Dict.{lookup, insert}
use kubernetes_cluster_monit.Prelude.Number.{atoi}
use kubernetes_cluster_monit.Prelude.Program.{Reply, for_state, program, Since}
use kubernetes_cluster_monit.Prelude.Text.{
  replace, Text, codes, text_eq, starts_with, split, join, trim_left, trim_right, is_space,
  trim_space,
}
use kubernetes_cluster_monit.Receiver.{Dest, Receiver}
use kubernetes_cluster_monit.Tests.Fixtures.{
  web, web_labels, web_pod, policy_annotations, reply_of, server, web_receiver,
}

abbrev level_field : Field
level_field = record { quotes = false; key = codes "level"; value = codes "info" }

abbrev msg_field : Field
msg_field = record { quotes = true; key = codes "msg"; value = codes "a b" }

level_field-IsField : IsField level_field
unfolding trim_space trim_left trim_right is_space
level_field-IsField = record { key_is = refl; key_trimmed = refl; value_is = refl }

msg_field-IsField : IsField msg_field
unfolding trim_space trim_left trim_right is_space
msg_field-IsField = record { key_is = refl; key_trimmed = refl; value_is = refl }

process_line-fields_text_example :
    process_line (codes "level=info msg=\"a b\"")
    ≡ fields ((codes "level", codes "info") ∷ (codes "msg", codes "a b") ∷ [])
unfolding insert text_eq
process_line-fields_text_example =
    process_line-fields_text (level_field ∷ []) msg_field (level_field-IsField, tt)
      msg_field-IsField refl

process_line-total_example : process_line (codes "a=b") ≢ out_of_fuel
process_line-total_example = process_line-total (codes "a=b")

abbrev pods_world : World
pods_world = record {
  pods = λ h. reply_of (
      record web_pod {
        annotations =
            some ((codes "sidecar-injector-webhook.rohit.in/status", codes "injected") ∷ []);
      }
      ∷ []);
  stream = λ h ns name since. reply_of (codes "type=liveness-check");
  scan = λ t. t ∷ [];
  marshal = λ logs. reply_of (codes "[]");
}

target_selector-policy_example :
    target_selector web_labels (target_labels (group_label_text (codes "app" ∷ [])) web_labels)
    ≡ codes "app=web"
unfolding starts_with lookup text_eq join
target_selector-policy_example =
    target_selector-policy (codes "app") [] web_labels ((refl, (refl, (refl, (refl, tt)))), tt)
      ((λ e. cc), tt) ((codes "=we", b'b', refl, refl), tt)

take_action-Since_example :
    Since Quarantines [] (take_action (server (some policy_annotations)) (codes "web-1") []).1
take_action-Since_example = take_action-Since (server (some policy_annotations)) (codes "web-1") []

abbrev cluster_library : ClientGo Text Kube Text
cluster_library = record {
  build_config_from_flags = λ path. reply_of path;
  in_cluster_config = reply_of [];
  new_for_config = λ config. reply_of (server (some policy_annotations));
  new_receivers_for_config = λ config. reply_of [];
}

handle_action-created_example :
    Since Quarantines [] (handle_action cluster_library [] (codes "web-1") []).1
    × All (WasQuarantined (handle_action cluster_library [] (codes "web-1") []).1) (web ∷ [])
unfolding take_action program for_state text_eq lookup starts_with split join trim_right action_key
    group_label_key handle_action
handle_action-created_example =
    handle_action-created cluster_library [] (codes "web-1") [] _ (web ∷ []) refl

array_text-file_text_example :
    array_text (file_text (some (codes "a") ∷ none ∷ some (codes "b") ∷ [])) ≡ codes "[{a},\n{b}]"
unfolding join
array_text-file_text_example =
    array_text-file_text (some (codes "a") ∷ none ∷ some (codes "b") ∷ []) (
      unfold starts_with in
      (
        record { no_backslash = refl; single_commas = (refl, (refl, (refl, tt))) },
        (record { no_backslash = refl; single_commas = (refl, (refl, (refl, tt))) }, tt),
      ))

-- A decoder of one entry for each byte.
abbrev decode_bytes : Text → Reply (List LogInfo)
decode_bytes t = reply_of (map (λ b. blank) t)

abbrev some_file : Reply Text
some_file = reply_of (codes "x")

retrieve_logs-IsTail_example :
    (sent : List LogInfo) × (retrieve_logs decode_bytes some_file (some (codes "2")) ≡ some sent)
    × IsTail 2 (decode_bytes (array_text (codes "x"))).value sent
unfolding atoi
retrieve_logs-IsTail_example = retrieve_logs-IsTail decode_bytes some_file (codes "2") 2 refl

retrieve_logs-none_iff_example :
    (retrieve_logs decode_bytes some_file (some (codes "-1")) ≡ none)
    ↔ IsNegative decode_bytes some_file (some (codes "-1"))
unfolding array_text replace trim_right trim_left starts_with
retrieve_logs-none_iff_example =
    retrieve_logs-none_iff decode_bytes some_file (some (codes "-1")) (omega arith)

abbrev two_destinations : List Dest
two_destinations =
    record { ip_address = codes "10.0.0.8"; port = codes "3000"; endpoint = codes "/" }
    ∷ record { ip_address = codes "10.0.0.9"; port = codes "3000"; endpoint = codes "/in" }
    ∷ []

abbrev pushing_receiver : Receiver
pushing_receiver = record web_receiver {
  spec = record web_receiver.spec { destination = two_destinations };
}

-- The first destination fails.
abbrev peers : Reply (Reply Text) → Peers
peers page = record {
  receivers = λ h. reply_of (pushing_receiver ∷ []);
  get_page = λ h. page;
  post = λ h url form.
      if text_eq url (codes "http://10.0.0.8:3000/") then some (codes "refused") else none;
}

abbrev got_logs_page : Reply (Reply Text)
got_logs_page = reply_of (reply_of (codes "[]"))

abbrev sender_library : ClientGo Text Text (Reply (Reply Text))
sender_library = record {
  build_config_from_flags = λ path. reply_of path;
  in_cluster_config = reply_of [];
  new_for_config = λ config. reply_of [];
  new_receivers_for_config = λ config. reply_of got_logs_page;
}

sender_main-posts_example :
    deliveries (sender_main sender_library peers [] 2 []).1
    ≡ posts (rounds_fetched (sender_main sender_library peers [] 2 []).1)
sender_main-posts_example = sender_main-posts sender_library peers [] 2
