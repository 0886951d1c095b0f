-- ===== src/Webhook/Server.antt =====
-- `mutate` and `serve` of `webhook/webhook.go`: from an HTTP request to the admission response.
pub mod Answers
use kubernetes_cluster_monit.Kube.{Pod, Event, Kube}
use kubernetes_cluster_monit.Prelude.{
  ℕ, Bool, true, false, not, Option, none, some, List, [], ◌∷◌, ◌++◌, if◌then◌else◌, is_empty,
}
use kubernetes_cluster_monit.Prelude.Program.{Prog, Reply, pure, ◌>>=◌, ◌>>◌, deref, embed}
use kubernetes_cluster_monit.Prelude.Text.{Text, codes, text_eq}
use kubernetes_cluster_monit.Webhook.Mutation.{ignored_namespaces, mutation_required}
use kubernetes_cluster_monit.Webhook.Patch.{PatchOperation, Config, patch_operations}
use kubernetes_cluster_monit.Webhook.Patch.Apply.Injected.{status_annotation}

pub record AdmissionRequest : Type 0 where
  pub uid : Text
  pub raw : Text

pub record AdmissionResponse : Type 0 where
  pub uid : Text
  pub allowed : Bool
  pub message : Option Text  -- the message of `Result`
  pub patch : Option Text

-- The JSON codecs and the defaulting of Kubernetes objects, which are libraries.
pub record Codec : Type 0 where
  pub decode_review : Text → Reply (Option AdmissionRequest)
  pub decode_pod : Text → Reply Pod
  pub default_config : Config → Config
  pub encode_patch : List PatchOperation → Reply Text
  pub encode_review : AdmissionResponse → Reply Text

-- `&v1beta1.AdmissionResponse{Result: &metav1.Status{Message: …}}`
abbrev pub failed : Text → AdmissionResponse
failed err = record { uid = []; allowed = false; message = some err; patch = none }

abbrev pub allowed_as_is : AdmissionResponse
allowed_as_is = record { uid = []; allowed = true; message = none; patch = none }

abbrev pub empty_body : Text
empty_body = codes "empty body"

abbrev pub not_json : Text
not_json = codes "invalid Content-Type, expect `application/json`"

-- What `serve` writes to the client.
pub data Written : Type 0 where
  http_error : (code : ℕ) (message : Text) → Written
  body : Text → Written

abbrev pub with_uid : Option AdmissionRequest → AdmissionResponse → AdmissionResponse
with_uid none r = r
with_uid (some req) r = record r { uid = req.uid }

module _ (c : Codec) where
  abbrev encoding_error : Option Text → List Written
  encoding_error none = []
  encoding_error (some err) = http_error 500 (codes "could not encode response: " ++ err) ∷ []

  abbrev writing_error : Option Text → List Written
  writing_error none = []
  writing_error (some err) = http_error 500 (codes "could not write response: " ++ err) ∷ []

  -- The end of `serve`: an encoding that failed is reported, and the body is written all the same.
  unfoldable pub respond : (write : Text → Option Text) → AdmissionResponse → List Written
  respond write r =
      let reply = c.encode_review r in
      encoding_error reply.error ++ body reply.value ∷ writing_error (write reply.value)

module _ (client : Option Kube) (c : Codec) where
  -- The two ends of `createPatch`.
  abbrev pub patched : Reply Text → AdmissionResponse
  patched reply = elim reply.error [
    | none ↦ record { uid = []; allowed = true; message = none; patch = some reply.value }
    | some err ↦ failed err
  ]

  abbrev pub inject : Pod → Option Config → Prog Event AdmissionResponse AdmissionResponse
  inject pod config = do
    cfg ← deref config
    pure (patched (c.encode_patch (patch_operations pod (c.default_config cfg) status_annotation)))

  abbrev pub admit : Option Config → Pod → Prog Event AdmissionResponse AdmissionResponse
  admit config pod = do
    required ← embed (mutation_required client ignored_namespaces pod)
    if required then inject pod config else pure allowed_as_is

  -- `mutate`; a request that is nil, and a configuration that is, make it panic.
  unfoldable pub mutate :
      Option Config → Option AdmissionRequest → Prog Event AdmissionResponse AdmissionResponse
  mutate config request = do
    req ← deref request
    let decoded = c.decode_pod req.raw
    elim decoded.error [ none ↦ admit config decoded.value | some err ↦ pure (failed err) ]

  -- `serve`; `sent` is the body of the request, empty if there is none or it cannot be read.
  unfoldable pub serve :
      Option Config
      → (write : Text → Option Text) → (sent content_type : Text)
      → Prog Event AdmissionResponse (List Written)
  unfolding mutate respond
  serve config write sent content_type =
      if is_empty sent
      then pure (http_error 400 empty_body ∷ [])
      else if not (text_eq content_type (codes "application/json"))
      then pure (http_error 415 not_json ∷ [])
      else let review = c.decode_review sent in
        elim review.error [
          | some err ↦ pure (respond c write (with_uid review.value (failed err)))
          | none ↦
              (mutate config review.value >>= λ r. pure (respond c write (with_uid review.value r)))
        ]
