-- ===== src/Webhook/Server/Answers.antt =====
-- What the API server hears from the webhook.
use kubernetes_cluster_monit.Kube.{Pod, Deployment, History, Kube}
use kubernetes_cluster_monit.Kube.Steady.{IsSteady, covers}
use kubernetes_cluster_monit.Prelude.{
  ◌≡◌, ◌⊎◌, inl, inr, Bool, true, false, not, ◌&&◌, ◌||◌, Option, none, some, List, [], ◌∷◌,
  if◌then◌else◌, Bool-cases, is_empty, any,
}
use kubernetes_cluster_monit.Prelude.Program.{
  Out, next, return, panic, pure, and_then, result, ended, program,
}
use kubernetes_cluster_monit.Prelude.Text.{Text, codes, text_eq}
use kubernetes_cluster_monit.Webhook.Mutation.{
  ignored_namespaces, is_ignored, has_status, opts_in, mutation_required,
}
use kubernetes_cluster_monit.Webhook.Mutation.Decision.{mutation_required-steady}
use kubernetes_cluster_monit.Webhook.Patch.{Config, patch_operations}
use kubernetes_cluster_monit.Webhook.Patch.Apply.Injected.{status_annotation}
use kubernetes_cluster_monit.Webhook.Server.{
  AdmissionRequest, AdmissionResponse, Codec, allowed_as_is, empty_body, not_json, http_error,
  respond, inject, admit, serve,
}

-- A request with no body, or of another type than JSON, gets an error page before anything is decoded
-- and before any call of the API server.
pub serve-rejects :
    (k : Kube) (c : Codec) (config : Option Config) (write : Text → Option Text)
    (sent content_type : Text) (h : History)
    → (is_empty sent ≡ true) ⊎ (text_eq content_type (codes "application/json") ≡ false)
    → serve (some k) c config write sent content_type h ≡ (
      next (
          http_error
            (if is_empty sent then 400 else 415)
            (if is_empty sent then empty_body else not_json)
          ∷ []),
      h,
    )
unfolding serve program
serve-rejects k c config write sent content_type h e = elim (Bool-cases (is_empty sent)) [
  | inl i ↦ rw i
  | inr i ↦ elim e [ inl j ↦ cc | inr t ↦ rw (i, t) ]
]

-- The decision that a steady server leads to.
abbrev pub decision : Kube → Pod → (Text → List Pod) → List Deployment → (Deployment → Text) → Bool
decision k pod pods dps selector =
    not (is_ignored ignored_namespaces pod.namespace)
    && (not (has_status pod.annotations)
        && (opts_in pod.annotations
            || any (λ p. any (covers pods selector p.name) dps) (pods (k.set_selector pod.labels))))

abbrev pub answer : Text → Bool → Text → AdmissionResponse
answer uid required bytes = record {
  uid = uid;
  allowed = true;
  message = none;
  patch = if required then some bytes else none;
}

module _ (k : Kube) (c : Codec) where
  admit-result :
      (cfg : Config) (pod : Pod) (bytes : Text) (b : Bool) (h : History)
      → c.encode_patch (patch_operations pod (c.default_config cfg) status_annotation)
        ≡ record { value = bytes; error = none }
      → result (mutation_required (some k) ignored_namespaces pod h).0 ≡ some b
      → (admit (some k) c (some cfg) pod h).0 ≡ next (answer [] b bytes)
  unfolding program
  admit-result cfg pod bytes b h e =
      by_out (mutation_required (some k) ignored_namespaces pod h).0 _
    where
      by_answer :
          (x : Bool) (h' : History)
          → x ≡ b
          → ((if x then inject (some k) c pod (some cfg) else pure allowed_as_is) h').0
            ≡ next (answer [] b bytes)
      by_answer true h' x = rw (← x) (rw e)
      by_answer false h' x = rw (← x)

      by_out :
          (o : Out Bool Bool) (h' : History)
          → result o ≡ some b
          → (and_then {R = AdmissionResponse}
              (ended o h').0
              (λ required.
                if required then inject (some k) c pod (some cfg) else pure allowed_as_is)
              (ended {S = AdmissionResponse} o h').1).0
            ≡ next (answer [] b bytes)
      by_out (next x) h' r = by_answer x h' (cc)
      by_out (return x) h' r = by_answer x h' (cc)
      by_out panic h' r = cc

-- Over a steady server, with a configuration loaded and codecs that do not fail, every request gets
-- one answer: the pod is allowed, the answer carries the UID of the request, and it has a patch, that
-- of the webhook's configuration, exactly if the decision is yes.
pub serve-answers :
    (k : Kube) (c : Codec) (cfg : Config) (write : Text → Option Text) (sent : Text)
    (req : AdmissionRequest) (pod : Pod) (bytes : Text) {pods : Text → List Pod}
    {dps : List Deployment} {selector : Deployment → Text} (h : History)
    → IsSteady k pod.namespace pods dps selector
    → is_empty sent ≡ false
    → c.decode_review sent ≡ record { value = some req; error = none }
    → c.decode_pod req.raw ≡ record { value = pod; error = none }
    → c.encode_patch (patch_operations pod (c.default_config cfg) status_annotation)
      ≡ record { value = bytes; error = none }
    → (serve (some k) c (some cfg) write sent (codes "application/json") h).0
      ≡ next (respond c write (answer req.uid (decision k pod pods dps selector) bytes))
unfolding serve program text_eq
serve-answers k c cfg write sent req pod bytes {pods} {dps} {selector} h steady e r p b =
    let yes_or_no = decision k pod pods dps selector in
    let admitted : (admit (some k) c (some cfg) pod h).0 ≡ next (answer [] yes_or_no bytes) =
      admit-result k c cfg pod bytes yes_or_no h b
        (mutation_required-steady pod steady ignored_namespaces h) in
    rw e (rw r (rw r (rw p (rw p (rw admitted)))))
