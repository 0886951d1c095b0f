-- ===== src/Generated/Typed.antt =====
-- The client of the group of the custom resource, `clientset/versioned/typed/myproject/v1alpha1/myproject_client.go`.
-- `RESTClientFor` and the codecs are of libraries.
use kubernetes_cluster_monit.Prelude.{Option, none, some, [], if◌then◌else◌}
use kubernetes_cluster_monit.Prelude.Int.{ℤ}
use kubernetes_cluster_monit.Prelude.Program.{Reply}
use kubernetes_cluster_monit.Prelude.Text.{Text, codes, text_eq}

-- `schema.GroupVersion`
pub record GroupVersion : Type 0 where
  pub group : Text
  pub version : Text

abbrev pub scheme_group_version : GroupVersion
scheme_group_version = record { group = codes "sampleproject.io"; version = codes "v1alpha1" }

-- The fields of `rest.Config` that are read or set; `QPS` is a floating point number.
pub record ClientConfig (Qps Limiter Codecs Other : Type 0) : Type 0 where
  pub rate_limiter : Option Limiter
  pub qps : Qps
  pub burst : ℤ
  pub group_version : Option GroupVersion
  pub api_path : Text
  pub negotiated_serializer : Option Codecs
  pub user_agent : Text
  pub other : Other

pub record TypedClient (Rest : Type 0) : Type 0 where
  pub rest_client : Rest

-- What the typed client takes from libraries.
pub record RestLibrary (Qps Limiter Codecs Other Rest : Type 0) : Type 0 where
  pub without_conversion : Codecs  -- `scheme.Codecs.WithoutConversion()`
  pub default_user_agent : Text  -- `rest.DefaultKubernetesUserAgent()`
  pub rest_client_for : ClientConfig Qps Limiter Codecs Other → Reply Rest

module _ {Qps Limiter Codecs Other Rest : Type 0}
    (lib : RestLibrary Qps Limiter Codecs Other Rest) where
  -- `setConfigDefaults`, with the configuration that it changes
  unfoldable pub set_config_defaults :
      ClientConfig Qps Limiter Codecs Other → Reply (ClientConfig Qps Limiter Codecs Other)
  set_config_defaults c = record {
    value = record c {
      group_version = some scheme_group_version;
      api_path = codes "/apis";
      negotiated_serializer = some lib.without_conversion;
      user_agent = if text_eq c.user_agent [] then lib.default_user_agent else c.user_agent;
    };
    error = none;
  }

  -- `NewForConfig`
  unfoldable pub new_typed_client :
      ClientConfig Qps Limiter Codecs Other → Reply (Option (TypedClient Rest))
  unfolding set_config_defaults
  new_typed_client c =
      let config = set_config_defaults c in
      let client = lib.rest_client_for config.value in
      elim config.error [
        | some err ↦ record { value = none; error = some err }
        | none ↦ elim client.error [
          | some err ↦ record { value = none; error = some err }
          | none ↦ record { value = some (record { rest_client = client.value }); error = none }
        ]
      ]

  -- `NewForConfigOrDie`; `none` is the panic.
  unfoldable pub new_typed_client_or_die :
      ClientConfig Qps Limiter Codecs Other → Option (Option (TypedClient Rest))
  unfolding new_typed_client
  new_typed_client_or_die c =
      let client = new_typed_client c in
      elim client.error [ some err ↦ none | none ↦ some client.value ]

-- `RESTClient`; nil for a nil client
abbrev pub rest_client_of : {Rest : Type 0} → Option (TypedClient Rest) → Option Rest
rest_client_of none = none
rest_client_of (some c) = some c.rest_client

-- `Receivers` and `newReceivers`
pub record ReceiverMethods (Rest : Type 0) : Type 0 where
  pub rest : Option Rest
  pub ns : Text

abbrev pub receivers_in : {Rest : Type 0} → Option (TypedClient Rest) → Text → ReceiverMethods Rest
receivers_in c namespace = record { rest = rest_client_of c; ns = namespace }
