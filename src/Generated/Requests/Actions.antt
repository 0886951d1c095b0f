-- ===== src/Generated/Requests/Actions.antt =====
-- The typed client and its fake mean the same.
use kubernetes_cluster_monit.Generated.Fake.{
  Action, get_action, list_action, watch_action, create_action, update_action, delete_action,
  delete_collection_action, patch_action,
}
use kubernetes_cluster_monit.Generated.Requests.{
  Verb, http_get, http_post, http_put, http_delete, http_patch, Body, receiver_body, patch_body,
  ListOptions, Params, list_params, RestRequest, receivers_resource, timeout_of, Method,
  list_method, watch_method, delete_collection_method,
}
use kubernetes_cluster_monit.Prelude.{◌≡◌, false, Option, none, some, List, if◌then◌else◌}
use kubernetes_cluster_monit.Prelude.Int.{ℤ, pos}
use kubernetes_cluster_monit.Prelude.Text.{Text, text_eq}

abbrev list_or_watch : Text → ListOptions → Action
list_or_watch ns opts =
    if opts.watch
    then watch_action ns opts.selection opts.resource_version
    else list_action ns opts.selection

-- What the API server takes a request for, by the conventions of its API: the verb of a request with a
-- name is about the object, and that of one without is about the collection, which a `GET` watches if
-- its options say so.
abbrev pub meaning :
    Verb → (ns : Text) → Option Text → Option Params → List Text → Body → Option Action
meaning http_get ns (some name) params subs body = some (get_action ns name)
meaning http_get ns none (some (list_params opts)) subs body = some (list_or_watch ns opts)
meaning http_post ns none params subs (receiver_body r) = some (create_action ns r)
meaning http_put ns (some name) params subs (receiver_body r) =
    if text_eq name r.name then some (update_action ns r) else none
meaning http_delete ns (some name) params subs body = some (delete_action ns name)
meaning http_delete ns none (some (list_params opts)) subs body =
    some (delete_collection_action ns opts.selection)
meaning (http_patch patch_type) ns (some name) params subs (patch_body bytes) =
    some (patch_action ns name patch_type bytes subs)
meaning _ ns name params subs body = none

-- The actions are those on receivers: a request for another resource has none.
abbrev pub request_action : RestRequest → Option Action
request_action r =
    if text_eq r.resource receivers_resource
    then meaning r.verb r.namespace r.name r.params r.subresources r.body
    else none

-- The options of a listing do not ask for a watch.
abbrev pub IsPlainList : Method → Type 0
IsPlainList (list_method opts) = opts.watch ≡ false
IsPlainList m = Unit

-- The time that a request is given: that of the options, 0 without one.
abbrev pub timeout_asked : Method → ℤ
timeout_asked (list_method opts) = timeout_of opts
timeout_asked (watch_method opts) = timeout_of opts
timeout_asked (delete_collection_method opts list_opts) = timeout_of list_opts
timeout_asked m = pos 0
