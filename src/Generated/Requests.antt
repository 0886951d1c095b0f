-- ===== src/Generated/Requests.antt =====
-- The typed client of the custom resource, `clientset/versioned/typed/myproject/v1alpha1/receiver.go`, and
-- its fake for tests, `fake/fake_receiver.go`: the request that each method makes of the REST client, and
-- the action that its fake hands to the tracker of objects. The REST client, the tracker, and the
-- encoding of options are libraries; an option is its text.
pub mod Actions
use kubernetes_cluster_monit.Prelude.{Bool, true, Option, none, some, List, []}
use kubernetes_cluster_monit.Prelude.Int.{ℤ, pos, nanoseconds}
use kubernetes_cluster_monit.Prelude.Text.{Text, codes}
use kubernetes_cluster_monit.Receiver.{Receiver}

pub data Verb : Type 0 where
  http_get : Verb
  http_post : Verb
  http_put : Verb
  http_delete : Verb
  http_patch : (patch_type : Text) → Verb

pub data Body : Type 0 where
  no_body : Body
  receiver_body : Receiver → Body
  options_body : Text → Body
  patch_body : Text → Body

-- `v1.ListOptions`
pub record ListOptions : Type 0 where
  pub timeout_seconds : Option ℤ
  pub watch : Bool
  pub selection : Text  -- the label and field selectors
  pub resource_version : Text
  pub other : Text  -- the other fields

pub data Params : Type 0 where
  text_params : Text → Params
  list_params : ListOptions → Params

pub record RestRequest : Type 0 where
  pub verb : Verb
  pub namespace : Text
  pub resource : Text
  pub name : Option Text
  pub subresources : List Text
  pub params : Option Params
  pub timeout : ℤ  -- nanoseconds
  pub body : Body

abbrev pub receivers_resource : Text
receivers_resource = codes "receivers"

-- `c.client.Get()` and the like, up to the resource
abbrev pub begin_request : Verb → Text → RestRequest
begin_request verb ns = record {
  verb = verb;
  namespace = ns;
  resource = receivers_resource;
  name = none;
  subresources = [];
  params = none;
  timeout = pos 0;
  body = no_body;
}

-- `timeout` of the three methods with list options
abbrev pub timeout_of : ListOptions → ℤ
timeout_of opts = elim opts.timeout_seconds [ none ↦ pos 0 | some s ↦ nanoseconds s ]

abbrev pub get_request : (ns name options : Text) → RestRequest
get_request ns name options = record (begin_request http_get ns) {
  name = some name;
  params = some (text_params options);
}

abbrev pub list_request : (ns : Text) → ListOptions → RestRequest
list_request ns opts = record (begin_request http_get ns) {
  params = some (list_params opts);
  timeout = timeout_of opts;
}

abbrev pub watch_request : (ns : Text) → ListOptions → RestRequest
watch_request ns opts = record (begin_request http_get ns) {
  params = some (list_params (record opts { watch = true }));
  timeout = timeout_of opts;
}

abbrev pub create_request : (ns : Text) → Receiver → (opts : Text) → RestRequest
create_request ns receiver opts = record (begin_request http_post ns) {
  params = some (text_params opts);
  body = receiver_body receiver;
}

abbrev pub update_request : (ns : Text) → Receiver → (opts : Text) → RestRequest
update_request ns receiver opts = record (begin_request http_put ns) {
  name = some receiver.name;
  params = some (text_params opts);
  body = receiver_body receiver;
}

abbrev pub delete_request : (ns name opts : Text) → RestRequest
delete_request ns name opts = record (begin_request http_delete ns) {
  name = some name;
  body = options_body opts;
}

abbrev pub delete_collection_request : (ns opts : Text) → ListOptions → RestRequest
delete_collection_request ns opts list_opts = record (begin_request http_delete ns) {
  params = some (list_params list_opts);
  timeout = timeout_of list_opts;
  body = options_body opts;
}

abbrev pub patch_request : (ns name patch_type data_bytes opts : Text) → List Text → RestRequest
patch_request ns name patch_type data_bytes opts subresources =
    record (begin_request (http_patch patch_type) ns) {
      name = some name;
      subresources = subresources;
      params = some (text_params opts);
      body = patch_body data_bytes;
    }

-- A call of one of the methods; options of other kinds are their texts.
pub data Method : Type 0 where
  get_method : (name options : Text) → Method
  list_method : ListOptions → Method
  watch_method : ListOptions → Method
  create_method : Receiver → (opts : Text) → Method
  update_method : Receiver → (opts : Text) → Method
  delete_method : (name opts : Text) → Method
  delete_collection_method : (opts : Text) → ListOptions → Method
  patch_method : (name patch_type data_bytes opts : Text) → List Text → Method

abbrev pub request_of : (ns : Text) → Method → RestRequest
request_of ns (get_method name options) = get_request ns name options
request_of ns (list_method opts) = list_request ns opts
request_of ns (watch_method opts) = watch_request ns opts
request_of ns (create_method receiver opts) = create_request ns receiver opts
request_of ns (update_method receiver opts) = update_request ns receiver opts
request_of ns (delete_method name opts) = delete_request ns name opts
request_of ns (delete_collection_method opts list_opts) =
    delete_collection_request ns opts list_opts
request_of ns (patch_method name patch_type data_bytes opts subresources) =
    patch_request ns name patch_type data_bytes opts subresources
