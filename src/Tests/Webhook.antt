-- ===== src/Tests/Webhook.antt =====
-- The webhook's theorems on the small cluster.
use kubernetes_cluster_monit.Clients.{ClientGo, get_kubernetes_client}
use kubernetes_cluster_monit.Keys.{annotation_key, injected_status_key, injected_status_value}
use kubernetes_cluster_monit.Kube.{Pod, Kube}
use kubernetes_cluster_monit.Kube.Steady.{IsSteady}
use kubernetes_cluster_monit.Prelude.{◌≡◌, refl, inl, true, Option, none, some, [], ◌∷◌, ◌++◌}
use kubernetes_cluster_monit.Prelude.Dict.{lookup}
use kubernetes_cluster_monit.Prelude.Program.{next, panic, Reply, result}
use kubernetes_cluster_monit.Prelude.Text.{Text, codes, text_eq, to_lower}
use kubernetes_cluster_monit.Tests.Fixtures.{
  web_container, web_pod, policy_annotations, deployment_with, reply_of, server,
}
use kubernetes_cluster_monit.Webhook.Mutation.{
  ignored_namespaces, is_yes, has_status, opts_in, mutation_required,
}
use kubernetes_cluster_monit.Webhook.Mutation.Decision.{mutation_required-steady}
use kubernetes_cluster_monit.Webhook.Patch.{Config, patch_operations}
use kubernetes_cluster_monit.Webhook.Patch.Apply.{apply_all}
use kubernetes_cluster_monit.Webhook.Patch.Apply.Injected.{status_annotation, apply-missing_status}
use kubernetes_cluster_monit.Webhook.Server.{Codec, respond, serve}
use kubernetes_cluster_monit.Webhook.Server.Answers.{decision, answer, serve-answers}
use kubernetes_cluster_monit.Webhook.Start.{whsvr, handle}
use kubernetes_cluster_monit.Webhook.Start.Clientless.{handle-clientless}
use kubernetes_cluster_monit.Webhook.Start.Unconfigured.{handle-unconfigured}

abbrev yes_pod : Pod
yes_pod = record web_pod {
  annotations = some ((codes "sidecar-injector-webhook.rohit.in/inject", codes "yes") ∷ []);
}

policy_server-IsSteady :
    IsSteady
      (server (some policy_annotations))
      (codes "default")
      (λ s. web_pod ∷ [])
      (deployment_with (some policy_annotations) ∷ [])
      (λ dp. dp.selector)
policy_server-IsSteady = record {
  pods_are = λ h sel. refl;
  deployments_are = λ h. refl;
  selector_is = λ dp. refl;
}

-- The pod opts in by its deployment.
mutation_required-steady_example :
    result
      (mutation_required (some (server (some policy_annotations))) ignored_namespaces web_pod []).0
    ≡ some true
unfolding has_status opts_in is_yes text_eq lookup to_lower annotation_key injected_status_key
    injected_status_value
mutation_required-steady_example =
    mutation_required-steady web_pod policy_server-IsSteady ignored_namespaces []

abbrev sidecar_config : Config
sidecar_config = record {
  containers = record web_container { name = codes "monitor-sidecar" } ∷ [];
  volumes = [];
}

abbrev codec : Codec
codec = record {
  decode_review = λ t. reply_of (some (record { uid = codes "u1"; raw = t }));
  decode_pod = λ t. reply_of web_pod;
  default_config = λ c. c;
  encode_patch = λ p. reply_of (codes "patch");
  encode_review = λ r. reply_of r.uid;
}

abbrev no_error : Text → Option Text
no_error t = none

serve-answers_example :
    (serve
      (some (server (some policy_annotations)))
      codec
      (some sidecar_config)
      no_error
      (codes "r")
      (codes "application/json")
      []).0
    ≡ next (
        respond codec no_error (
          answer
            (codes "u1")
            (decision
              (server (some policy_annotations))
              web_pod
              (λ s. web_pod ∷ [])
              (deployment_with (some policy_annotations) ∷ [])
              (λ dp. dp.selector))
            (codes "patch")))
serve-answers_example =
    serve-answers (server (some policy_annotations)) codec sidecar_config no_error (codes "r")
      (record { uid = codes "u1"; raw = codes "r" }) web_pod (codes "patch") []
      policy_server-IsSteady refl refl refl refl

apply-missing_status_example :
    apply_all (patch_operations yes_pod sidecar_config status_annotation) yes_pod
    ≡ some (record yes_pod {
      containers = yes_pod.containers ++ sidecar_config.containers;
      volumes = [];
      annotations = some status_annotation;
    })
unfolding lookup text_eq injected_status_key
apply-missing_status_example = apply-missing_status yes_pod sidecar_config refl

abbrev removed_pod : Pod
removed_pod = record web_pod {
  annotations = some ((codes "sidecar-injector-webhook.rohit.in/status", codes "removed") ∷ []);
}

-- A configuration file that cannot be read.
abbrev no_file : Reply Text
no_file = record { value = []; error = some (codes "no such file") }

abbrev parse_config : Text → Reply Config
parse_config t = reply_of sidecar_config

handle-unconfigured_example :
    (handle
      (whsvr parse_config (reply_of (some (server (some policy_annotations)))) no_file)
      codec
      no_error
      (codes "r")
      (codes "application/json")
      []).0
    ≡ panic
unfolding text_eq has_status to_lower lookup injected_status_value opts_in is_yes annotation_key
handle-unconfigured_example =
    handle-unconfigured parse_config no_file (server (some policy_annotations)) codec no_error
      (codes "r") (record { uid = codes "u1"; raw = codes "r" }) web_pod []
      (inl (codes "no such file", refl)) policy_server-IsSteady refl refl refl

-- A library that finds no configuration of the cluster.
abbrev outside_library : ClientGo Text Kube Text
outside_library = record {
  build_config_from_flags = λ path. reply_of path;
  in_cluster_config = record { value = []; error = some (codes "not in a cluster") };
  new_for_config = λ config. reply_of (server none);
  new_receivers_for_config = λ config. reply_of [];
}

handle-clientless_example :
    (handle
      (whsvr parse_config (get_kubernetes_client outside_library []) no_file)
      codec
      no_error
      (codes "r")
      (codes "application/json")
      []).0
    ≡ panic
unfolding get_kubernetes_client text_eq has_status to_lower lookup injected_status_value
handle-clientless_example =
    handle-clientless outside_library [] (codes "not in a cluster") parse_config no_file codec
      no_error (codes "r") (record { uid = codes "u1"; raw = codes "r" }) web_pod [] refl refl refl
      refl
