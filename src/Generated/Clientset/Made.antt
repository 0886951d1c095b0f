-- ===== src/Generated/Clientset/Made.antt =====
-- When the clients of the custom resource are made.
use kubernetes_cluster_monit.Generated.Clientset.{
  Clientset, Makers, burst_error, is_no_burst, limited_config, new_clients, new_clientset,
  new_clientset_or_die,
}
use kubernetes_cluster_monit.Generated.Typed.{
  ClientConfig, set_config_defaults, new_typed_client, new_typed_client_or_die,
}
use kubernetes_cluster_monit.Prelude.{
  ◌≡◌, refl, sym, ap, ◌∙◌, inl, inr, Bool, true, false, ◌&&◌, Option, none, some, arith,
  if◌then◌else◌, Bool-cases,
}
use kubernetes_cluster_monit.Prelude.Program.{Reply}

module _ {Qps Limiter Codecs Other Rest Discovery : Type 0}
    (m : Makers Qps Limiter Codecs Other Rest Discovery) where
  -- The configuration needs a limiter, and no burst is given for it.
  abbrev pub is_starved : ClientConfig Qps Limiter Codecs Other → Bool
  is_starved c = elim c.rate_limiter [
    | some limiter ↦ false
    | none ↦ m.is_positive c.qps && is_no_burst c.burst
  ]

  -- The configuration of both clients: with the limiter that is given, or a new one for a positive rate.
  abbrev pub used_config :
      ClientConfig Qps Limiter Codecs Other → ClientConfig Qps Limiter Codecs Other
  used_config c = elim c.rate_limiter [
    | some limiter ↦ c
    | none ↦
        if m.is_positive c.qps
        then record c { rate_limiter = some (m.token_bucket c.qps c.burst) }
        else c
  ]

  limited_config-used :
      (c : ClientConfig Qps Limiter Codecs Other)
      → limited_config m c ≡ (
          if is_starved c
          then record { value = none; error = some burst_error }
          else record { value = some (used_config c); error = none })
  unfolding limited_config
  limited_config-used c = ground arith

  -- `NewForConfig` makes both clients of one configuration: with the limiter that is given, or a new one
  -- for a positive rate. It fails exactly if a limiter needs a burst and has none, with that error, or
  -- else if one of the clients cannot be made of that configuration.
  pub new_clientset_lem :
      (c : ClientConfig Qps Limiter Codecs Other)
      → new_clientset m c ≡ (
          if is_starved c
          then record { value = none; error = some burst_error }
          else new_clients m (used_config c))
  unfolding new_clientset
  new_clientset_lem c = elim (Bool-cases (is_starved c)) [
    | inl s ↦ ap rest (limited_config-used c ∙ chosen _ _ s) ∙ sym (chosen _ _ s)
    | inr s ↦ ap rest (limited_config-used c ∙ passed _ _ s) ∙ sym (passed _ _ s)
  ]
    where
      chosen : {A : Type 0} (x y : A) → is_starved c ≡ true → (if is_starved c then x else y) ≡ x
      chosen x y e = rw e refl

      passed : {A : Type 0} (x y : A) → is_starved c ≡ false → (if is_starved c then x else y) ≡ y
      passed x y e = rw e refl

      rest :
          Reply (Option (ClientConfig Qps Limiter Codecs Other))
          → Reply (Option (Clientset Rest Discovery))
      rest limited = elim limited.value [
        | none ↦ record { value = none; error = limited.error }
        | some copied ↦ new_clients m copied
      ]

  -- What is left of a reply where an error is a panic.
  abbrev pub or_die : Reply (Option (Clientset Rest Discovery)) → Option (Clientset Rest Discovery)
  or_die reply = elim reply.error [ some err ↦ none | none ↦ reply.value ]

  -- `NewForConfigOrDie` makes both clients of the configuration as it is given, and panics exactly if one
  -- of them cannot be made of it: it does not ask for a burst, and makes no limiter. The discovery client
  -- of the library panics exactly where it fails.
  pub new_clientset_or_die-new_clients :
      ((c : ClientConfig Qps Limiter Codecs Other)
        → m.discovery_or_die c ≡ (elim (m.new_discovery c).error [
          | some err ↦ none
          | none ↦ some (m.new_discovery c).value
        ]))
      → (c : ClientConfig Qps Limiter Codecs Other)
      → new_clientset_or_die m c ≡ or_die (new_clients m c)
  unfolding new_clientset_or_die new_clients new_typed_client_or_die new_typed_client
      set_config_defaults
  new_clientset_or_die-new_clients dies c = ground (arith, dies c)

  -- Where no limiter has to be made, it panics exactly where `NewForConfig` fails, and gives the same
  -- clients elsewhere.
  pub new_clientset_or_die-new_clientset :
      ((c : ClientConfig Qps Limiter Codecs Other)
        → m.discovery_or_die c ≡ (elim (m.new_discovery c).error [
          | some err ↦ none
          | none ↦ some (m.new_discovery c).value
        ]))
      → (c : ClientConfig Qps Limiter Codecs Other)
      → (c.rate_limiter ≡ none → m.is_positive c.qps ≡ false)
      → new_clientset_or_die m c ≡ or_die (new_clientset m c)
  unfolding new_clientset limited_config
  new_clientset_or_die-new_clientset dies c limited =
      new_clientset_or_die-new_clients dies c ∙ ap or_die (sym (same c limited))
    where
      same :
          (c : ClientConfig Qps Limiter Codecs Other)
          → (c.rate_limiter ≡ none → m.is_positive c.qps ≡ false)
          → new_clientset m c ≡ new_clients m c
      same c limited = ground arith
