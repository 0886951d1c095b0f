-- ===== src/Clients.antt =====
-- The clients of the API server. `getClientConfig` and `GetKubernetesClient` are declared alike in the
-- webhook, the sidecar, the collector and the endpoint; the controller and the sender take two clients,
-- by `getKubernetesClient` of `CustomResource/main.go` and `logger/sender/sender.go`. The functions of
-- client-go are parameters; `new_receivers_for_config` is that of Generated/Clientset.
use kubernetes_cluster_monit.Prelude.{Option, none, some, [], if◌then◌else◌}
use kubernetes_cluster_monit.Prelude.Program.{Reply}
use kubernetes_cluster_monit.Prelude.Text.{Text, text_eq}

pub record ClientGo (RestConfig Client Receivers : Type 0) : Type 0 where
  pub build_config_from_flags : Text → Reply RestConfig
  pub in_cluster_config : Reply RestConfig
  pub new_for_config : RestConfig → Reply Client
  pub new_receivers_for_config : RestConfig → Reply Receivers

module _ {RestConfig Client Receivers : Type 0} (lib : ClientGo RestConfig Client Receivers) where
  -- `getClientConfig`
  unfoldable pub get_client_config : (kubeconfig : Text) → Reply RestConfig
  get_client_config kubeconfig =
      if text_eq kubeconfig []
      then lib.in_cluster_config
      else lib.build_config_from_flags kubeconfig

  -- `GetKubernetesClient`
  unfoldable pub get_kubernetes_client : (kubeconfig : Text) → Reply (Option Client)
  unfolding get_client_config
  get_kubernetes_client kubeconfig =
      let config = get_client_config kubeconfig in
      let client = lib.new_for_config config.value in
      elim config.error [
        | some err ↦ record { value = none; error = some err }
        | none ↦ elim client.error [
          | some err ↦ record { value = none; error = some err }
          | none ↦ record { value = some client.value; error = none }
        ]
      ]

  -- `getKubernetesClient` of the controller and the sender; `none` is `log.Fatalf`.
  unfoldable pub get_clients : (kubeconfig : Text) → Option (Client × Receivers)
  unfolding get_client_config
  get_clients kubeconfig =
      let config = get_client_config kubeconfig in
      let client = lib.new_for_config config.value in
      let receivers = lib.new_receivers_for_config config.value in
      elim config.error [
        | some err ↦ none
        | none ↦ elim client.error [
          | some err ↦ none
          | none ↦ elim receivers.error [
            | some err ↦ none
            | none ↦ some (client.value, receivers.value)
          ]
        ]
      ]
