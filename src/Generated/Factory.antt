-- ===== src/Generated/Factory.antt =====
-- `sharedInformerFactory` of `informers/externalversions/factory.go`. A `reflect.Type` is the type's name;
-- an informer is what `newFunc` returns, and its `Run` a goroutine that is only recorded. The lock is held
-- from the beginning to the end of each method.
pub mod Once
pub mod Started
use kubernetes_cluster_monit.Prelude.{
  Bool, true, false, Option, none, some, List, [], ◌∷◌, if◌then◌else◌,
}
use kubernetes_cluster_monit.Prelude.Int.{ℤ}
use kubernetes_cluster_monit.Prelude.Text.{Text, text_eq}

-- A Go map with types as keys, in the order in which a `range` visits it.
abbrev pub TypeMap : Type 0 → Type 0
TypeMap V = List (Text × V)

abbrev pub find_type : {V : Type 0} → Text → TypeMap V → Option V
find_type t [] = none
find_type t ((u, v) ∷ m) = if text_eq u t then some v else find_type t m

abbrev pub put_type : {V : Type 0} → Text → V → TypeMap V → TypeMap V
put_type t v [] = (t, v) ∷ []
put_type t v ((u, w) ∷ m) = if text_eq u t then (t, v) ∷ m else (u, w) ∷ put_type t v m

pub record Factory (Client Tweak Informer : Type 0) : Type 0 where
  pub client : Client
  pub namespace : Text
  pub tweak_list_options : Option Tweak
  pub default_resync : ℤ
  pub custom_resync : TypeMap ℤ
  pub informers : TypeMap Informer
  pub started_informers : TypeMap Bool
  pub runs : List (Text × Informer)  -- the goroutines, newest first

-- `f.startedInformers[informerType]`
abbrev pub is_started : Text → TypeMap Bool → Bool
is_started t m = elim (find_type t m) [ none ↦ false | some b ↦ b ]

module _ {Client Tweak Informer : Type 0} where
  -- `WithCustomResyncConfig`; the keys are the types of the given objects
  unfoldable pub with_custom_resync_config :
      TypeMap ℤ → Factory Client Tweak Informer → Factory Client Tweak Informer
  with_custom_resync_config [] f = f
  with_custom_resync_config ((t, v) ∷ config) f =
      with_custom_resync_config config (record f { custom_resync = put_type t v f.custom_resync })

  abbrev pub with_tweak_list_options :
      Tweak → Factory Client Tweak Informer → Factory Client Tweak Informer
  with_tweak_list_options tweak f = record f { tweak_list_options = some tweak }

  abbrev pub with_namespace : Text → Factory Client Tweak Informer → Factory Client Tweak Informer
  with_namespace namespace f = record f { namespace = namespace }

  -- `for _, opt := range options`
  unfoldable pub apply_options :
      List (Factory Client Tweak Informer → Factory Client Tweak Informer)
      → Factory Client Tweak Informer
      → Factory Client Tweak Informer
  apply_options [] f = f
  apply_options (opt ∷ options) f = apply_options options (opt f)

  -- `NewSharedInformerFactoryWithOptions`; `v1.NamespaceAll` is the empty text.
  unfoldable pub new_factory_with_options :
      Client
      → ℤ
      → List (Factory Client Tweak Informer → Factory Client Tweak Informer)
      → Factory Client Tweak Informer
  unfolding apply_options
  new_factory_with_options client default_resync options = apply_options options (record {
    client = client;
    namespace = [];
    tweak_list_options = none;
    default_resync = default_resync;
    custom_resync = [];
    informers = [];
    started_informers = [];
    runs = [];
  })

  -- `NewSharedInformerFactory` and `NewFilteredSharedInformerFactory`
  abbrev pub new_factory : Client → ℤ → Factory Client Tweak Informer
  new_factory client default_resync = new_factory_with_options client default_resync []

  abbrev pub new_filtered_factory : Client → ℤ → Text → Tweak → Factory Client Tweak Informer
  new_filtered_factory client default_resync namespace tweak =
      new_factory_with_options client default_resync
        (with_namespace namespace ∷ with_tweak_list_options tweak ∷ [])

  -- The body of the loop of `Start`.
  unfoldable pub start_one :
      Text → Informer → Factory Client Tweak Informer → Factory Client Tweak Informer
  start_one t informer f = if is_started t f.started_informers then f else record f {
    started_informers = put_type t true f.started_informers;
    runs = (t, informer) ∷ f.runs;
  }

  unfoldable pub start_each :
      TypeMap Informer → Factory Client Tweak Informer → Factory Client Tweak Informer
  unfolding start_one
  start_each [] f = f
  start_each ((t, informer) ∷ rest) f = start_each rest (start_one t informer f)

  -- `Start`
  unfoldable pub start_factory : Factory Client Tweak Informer → Factory Client Tweak Informer
  unfolding start_each
  start_factory f = start_each f.informers f

  -- `InformerFor`
  unfoldable pub informer_for :
      Text
      → (new_func : Client → ℤ → Informer) → Factory Client Tweak Informer
      → Informer × Factory Client Tweak Informer
  informer_for t new_func f = elim (find_type t f.informers) [
    | some informer ↦ (informer, f)
    | none ↦
        let resync_period : ℤ = elim (find_type t f.custom_resync) [
          | none ↦ f.default_resync
          | some v ↦ v
        ] in
        let informer = new_func f.client resync_period in
        (informer, record f { informers = put_type t informer f.informers })
  ]

  -- The started informers of `WaitForCacheSync`, and what `cache.WaitForCacheSync` says of each.
  unfoldable pub wait_for_cache_sync :
      (has_synced : Informer → Bool)
      → TypeMap Informer
      → Factory Client Tweak Informer
      → TypeMap Bool
  wait_for_cache_sync has_synced [] f = []
  wait_for_cache_sync has_synced ((t, informer) ∷ rest) f =
      let res = wait_for_cache_sync has_synced rest f in
      if is_started t f.started_informers then (t, has_synced informer) ∷ res else res
