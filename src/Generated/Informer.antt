-- ===== src/Generated/Informer.antt =====
-- `informers/externalversions/myproject/v1alpha1/receiver.go`: what the informer of the custom resource is
-- made of. The informer itself is a library.
use kubernetes_cluster_monit.Generated.Factory.{Factory, informer_for}
use kubernetes_cluster_monit.Generated.Requests.{
  ListOptions, RestRequest, list_request, watch_request,
}
use kubernetes_cluster_monit.Prelude.{Option, none, some, List, [], ◌∷◌}
use kubernetes_cluster_monit.Prelude.Int.{ℤ}
use kubernetes_cluster_monit.Prelude.Text.{Text, codes}

abbrev pub TweakListOptions : Type 0
TweakListOptions = ListOptions → ListOptions

-- The arguments of `cache.NewSharedIndexInformer`; an index is its name.
pub record InformerParts : Type 0 where
  pub list_func : ListOptions → RestRequest
  pub watch_func : ListOptions → RestRequest
  pub resync_period : ℤ
  pub indexers : List Text

-- `if tweakListOptions != nil { tweakListOptions(&options) }`
abbrev pub tweaked : Option TweakListOptions → ListOptions → ListOptions
tweaked none options = options
tweaked (some tweak) options = tweak options

-- `NewFilteredReceiverInformer`
abbrev pub new_filtered_receiver_informer :
    (namespace : Text) → ℤ → List Text → Option TweakListOptions → InformerParts
new_filtered_receiver_informer namespace resync_period indexers tweak = record {
  list_func = λ options. list_request namespace (tweaked tweak options);
  watch_func = λ options. watch_request namespace (tweaked tweak options);
  resync_period = resync_period;
  indexers = indexers;
}

-- `NewReceiverInformer`
abbrev pub new_receiver_informer : (namespace : Text) → ℤ → List Text → InformerParts
new_receiver_informer namespace resync_period indexers =
    new_filtered_receiver_informer namespace resync_period indexers none

abbrev pub namespace_index : Text
namespace_index = codes "namespace"

module _ {Client : Type 0} where
  -- `defaultInformer`
  abbrev pub default_informer :
      (namespace : Text) → Option TweakListOptions → Client → ℤ → InformerParts
  default_informer namespace tweak client resync_period =
      new_filtered_receiver_informer namespace resync_period (namespace_index ∷ []) tweak

  -- `Informer` of `receiverInformer`, as `Sampleproject().V1alpha1().Receivers()` of the factory makes it
  abbrev pub receiver_informer :
      Factory Client TweakListOptions InformerParts
      → InformerParts × Factory Client TweakListOptions InformerParts
  receiver_informer f =
      informer_for (codes "*v1alpha1.Receiver") (default_informer f.namespace f.tweak_list_options)
        f
