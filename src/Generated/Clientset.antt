-- ===== src/Generated/Clientset.antt =====
-- `clientset/versioned/clientset.go`: the clients of the API's groups, of which there is one (Generated/Typed),
-- and the discovery client, which is a library, like the rate limiter.
pub mod Made
use kubernetes_cluster_monit.Generated.Typed.{
  ClientConfig, TypedClient, RestLibrary, new_typed_client, new_typed_client_or_die,
}
use kubernetes_cluster_monit.Prelude.{
  zero, suc, Bool, true, false, Option, none, some, if◌then◌else◌,
}
use kubernetes_cluster_monit.Prelude.Int.{ℤ, pos, negsuc}
use kubernetes_cluster_monit.Prelude.Program.{Reply}
use kubernetes_cluster_monit.Prelude.Text.{Text, codes}

pub record Clientset (Rest Discovery : Type 0) : Type 0 where
  pub typed_client : Option (TypedClient Rest)
  pub discovery_client : Discovery

pub record Makers (Qps Limiter Codecs Other Rest Discovery : Type 0) : Type 0 where
  pub is_positive : Qps → Bool  -- `QPS > 0`
  pub token_bucket : Qps → ℤ → Limiter
  pub rest_library : RestLibrary Qps Limiter Codecs Other Rest
  pub new_discovery : ClientConfig Qps Limiter Codecs Other → Reply Discovery
  -- `NewDiscoveryClientForConfigOrDie`; `none` is a panic.
  pub discovery_or_die : ClientConfig Qps Limiter Codecs Other → Option Discovery
  pub discovery_for : Rest → Discovery

abbrev pub burst_error : Text
burst_error =
    codes
      "burst is required to be greater than 0 when RateLimiter is not set and QPS is set to greater than 0"

-- `Burst <= 0`
abbrev pub is_no_burst : ℤ → Bool
is_no_burst (pos zero) = true
is_no_burst (pos (suc n)) = false
is_no_burst (negsuc n) = true

module _ {Qps Limiter Codecs Other Rest Discovery : Type 0}
    (m : Makers Qps Limiter Codecs Other Rest Discovery) where
  -- The changes of `configShallowCopy`, or an error.
  unfoldable pub limited_config :
      ClientConfig Qps Limiter Codecs Other → Reply (Option (ClientConfig Qps Limiter Codecs Other))
  limited_config c = elim c.rate_limiter [
    | some limiter ↦ record { value = some c; error = none }
    | none ↦
        if m.is_positive c.qps
        then if is_no_burst c.burst
          then record { value = none; error = some burst_error }
          else record {
            value = some (record c { rate_limiter = some (m.token_bucket c.qps c.burst) });
            error = none;
          }
        else record { value = some c; error = none }
  ]

  -- `NewForConfig` from the copy on
  unfoldable pub new_clients :
      ClientConfig Qps Limiter Codecs Other → Reply (Option (Clientset Rest Discovery))
  unfolding new_typed_client
  new_clients c =
      let typed = new_typed_client m.rest_library c in
      let discovery = m.new_discovery c in
      elim typed.error [
        | some err ↦ record { value = none; error = some err }
        | none ↦ elim discovery.error [
          | some err ↦ record { value = none; error = some err }
          | none ↦ record {
            value =
                some (record { typed_client = typed.value; discovery_client = discovery.value });
            error = none;
          }
        ]
      ]

  -- `NewForConfig`
  unfoldable pub new_clientset :
      ClientConfig Qps Limiter Codecs Other → Reply (Option (Clientset Rest Discovery))
  unfolding limited_config new_clients
  new_clientset c =
      let limited = limited_config c in
      elim limited.value [
        | none ↦ record { value = none; error = limited.error }
        | some copied ↦ new_clients copied
      ]

  -- `NewForConfigOrDie`; `none` is a panic.
  unfoldable pub new_clientset_or_die :
      ClientConfig Qps Limiter Codecs Other → Option (Clientset Rest Discovery)
  unfolding new_typed_client_or_die
  new_clientset_or_die c =
      let discovery = m.discovery_or_die c in
      elim (new_typed_client_or_die m.rest_library c) [
        | none ↦ none
        | some typed ↦ elim discovery [
          | none ↦ none
          | some client ↦ some (record { typed_client = typed; discovery_client = client })
        ]
      ]

  -- `New`, with `New` of the typed client
  abbrev pub clientset_of : Rest → Clientset Rest Discovery
  clientset_of c = record {
    typed_client = some (record { rest_client = c });
    discovery_client = m.discovery_for c;
  }

-- `Discovery`; nil for a nil clientset
abbrev pub discovery_of :
    {Rest Discovery : Type 0} → Option (Clientset Rest Discovery) → Option Discovery
discovery_of none = none
discovery_of (some cs) = some cs.discovery_client
