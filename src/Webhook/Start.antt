-- ===== src/Webhook/Start.antt =====
-- `loadConfig` of `webhook/webhook.go`, and what `main` of `webhook/main.go` serves with. Reading the
-- file and YAML are parameters.
pub mod Unconfigured
pub mod Clientless
use kubernetes_cluster_monit.Kube.{Event, Kube}
use kubernetes_cluster_monit.Prelude.{Option, none, some, List}
use kubernetes_cluster_monit.Prelude.Program.{Prog, Reply}
use kubernetes_cluster_monit.Prelude.Text.{Text}
use kubernetes_cluster_monit.Webhook.Patch.{Config}
use kubernetes_cluster_monit.Webhook.Server.{AdmissionResponse, Codec, Written, serve}

-- `loadConfig`; `file` is what `ioutil.ReadFile` returns, `unmarshal` is `yaml.Unmarshal`.
unfoldable pub load_config : (unmarshal : Text → Reply Config) → Reply Text → Reply (Option Config)
load_config unmarshal file = elim file.error [
  | some err ↦ record { value = none; error = some err }
  | none ↦
      let cfg = unmarshal file.value in
      elim cfg.error [
        | some err ↦ record { value = none; error = some err }
        | none ↦ record { value = some cfg.value; error = none }
      ]
]

-- `WebhookServer`, less the HTTP server.
pub record WebhookServer : Type 0 where
  pub sidecar_config : Option Config
  pub clientset : Option Kube

-- `main` up to the server: errors of the client and of the configuration are only logged.
abbrev pub whsvr :
    (unmarshal : Text → Reply Config) → Reply (Option Kube) → Reply Text → WebhookServer
whsvr unmarshal client file = record {
  sidecar_config = (load_config unmarshal file).value;
  clientset = client.value;
}

-- `mux.HandleFunc("/mutate", whsvr.serve)`
abbrev pub handle :
    WebhookServer
    → Codec
    → (write : Text → Option Text) → (sent content_type : Text)
    → Prog Event AdmissionResponse (List Written)
handle s c write sent content_type = serve s.clientset c s.sidecar_config write sent content_type
