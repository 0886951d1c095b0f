-- ===== src/Generated/Fake.antt =====
-- The fake of the typed client, `clientset/versioned/typed/myproject/v1alpha1/fake/fake_receiver.go`: the
-- actions that its methods hand to the tracker of objects, and what they make of its answers.
use kubernetes_cluster_monit.Generated.Requests.{
  ListOptions, Method, get_method, list_method, watch_method, create_method, update_method,
  delete_method, delete_collection_method, patch_method,
}
use kubernetes_cluster_monit.Prelude.{Bool, Option, none, some, List, [], ◌∷◌, if◌then◌else◌}
use kubernetes_cluster_monit.Prelude.Dict.{Dict}
use kubernetes_cluster_monit.Prelude.Program.{Reply}
use kubernetes_cluster_monit.Prelude.Text.{Text}
use kubernetes_cluster_monit.Receiver.{Receiver}

-- The actions of `k8s.io/client-go/testing` for the resource of `receiversResource`. Of the options an
-- action keeps the restrictions: the selectors, and for a watch the resource version.
pub data Action : Type 0 where
  get_action : (ns name : Text) → Action
  list_action : (ns selection : Text) → Action
  watch_action : (ns selection resource_version : Text) → Action
  create_action : (ns : Text) → Receiver → Action
  update_action : (ns : Text) → Receiver → Action
  delete_action : (ns name : Text) → Action
  delete_collection_action : (ns selection : Text) → Action
  patch_action : (ns name patch_type data_bytes : Text) → List Text → Action

abbrev pub action_made : (ns : Text) → Method → Action
action_made ns (get_method name options) = get_action ns name
action_made ns (list_method opts) = list_action ns opts.selection
action_made ns (watch_method opts) = watch_action ns opts.selection opts.resource_version
action_made ns (create_method receiver opts) = create_action ns receiver
action_made ns (update_method receiver opts) = update_action ns receiver
action_made ns (delete_method name opts) = delete_action ns name
action_made ns (delete_collection_method opts list_opts) =
    delete_collection_action ns list_opts.selection
action_made ns (patch_method name patch_type data_bytes opts subresources) =
    patch_action ns name patch_type data_bytes subresources

-- An item of a list, with its labels.
pub record Labelled : Type 0 where
  pub item : Receiver
  pub item_labels : Dict

pub record LabelledList : Type 0 where
  pub list_meta : Text
  pub labelled : List Labelled

-- `Fake` of client-go: its answers to actions about an object, and about a list; the object of an answer
-- may be nil.
pub record Tracker (Watch : Type 0) : Type 0 where
  pub invokes : Action → Reply (Option Receiver)
  pub invokes_list : Action → Reply (Option LabelledList)
  pub invokes_watch : Action → Reply Watch
  -- the label selector that `ExtractFromListOptions` makes of options, nil for none
  pub label_of : ListOptions → Option (Dict → Bool)

-- `for _, item := range obj.(*v1alpha1.ReceiverList).Items`
unfoldable pub matching : (Dict → Bool) → List Labelled → List Labelled
matching label [] = []
matching label (i ∷ items) =
    let rest = matching label items in if label i.item_labels then i ∷ rest else rest

-- `if obj == nil { return nil, err }; return obj.(*v1alpha1.Receiver), err`
abbrev pub object_of : Reply (Option Receiver) → Reply (Option Receiver)
object_of reply = elim reply.value [
  | none ↦ record { value = none; error = reply.error }
  | some obj ↦ record { value = some obj; error = reply.error }
]

module _ {Watch : Type 0} (t : Tracker Watch) (ns : Text) where
  abbrev pub fake_get : (name options : Text) → Reply (Option Receiver)
  fake_get name options = object_of (t.invokes (action_made ns (get_method name options)))

  unfoldable pub fake_list : ListOptions → Reply (Option LabelledList)
  unfolding matching
  fake_list opts =
      let reply = t.invokes_list (action_made ns (list_method opts)) in
      elim reply.value [
        | none ↦ record { value = none; error = reply.error }
        | some obj ↦
            let selected : List Labelled = elim (t.label_of opts) [
              | none ↦ obj.labelled
              | some label ↦ matching label obj.labelled
            ] in
            record { value = some (record obj { labelled = selected }); error = reply.error }
      ]

  abbrev pub fake_watch : ListOptions → Reply Watch
  fake_watch opts = t.invokes_watch (action_made ns (watch_method opts))

  abbrev pub fake_create : Receiver → (opts : Text) → Reply (Option Receiver)
  fake_create receiver opts = object_of (t.invokes (action_made ns (create_method receiver opts)))

  abbrev pub fake_update : Receiver → (opts : Text) → Reply (Option Receiver)
  fake_update receiver opts = object_of (t.invokes (action_made ns (update_method receiver opts)))

  abbrev pub fake_delete : (name opts : Text) → Option Text
  fake_delete name opts = (t.invokes (action_made ns (delete_method name opts))).error

  abbrev pub fake_delete_collection : (opts : Text) → ListOptions → Option Text
  fake_delete_collection opts list_opts =
      (t.invokes_list (action_made ns (delete_collection_method opts list_opts))).error

  abbrev pub fake_patch :
      (name patch_type data_bytes opts : Text) → List Text → Reply (Option Receiver)
  fake_patch name patch_type data_bytes opts subresources =
      object_of
        (t.invokes (action_made ns (patch_method name patch_type data_bytes opts subresources)))
