-- ===== src/Webhook/Start/Unconfigured.antt =====
-- What a webhook does whose configuration was not loaded.
use kubernetes_cluster_monit.Kube.{Pod, Deployment, History, Kube}
use kubernetes_cluster_monit.Kube.Steady.{IsSteady}
use kubernetes_cluster_monit.Prelude.{
  ◌≡◌, refl, ap, ◌∙◌, ◌⊎◌, inl, inr, Bool, true, false, Option, none, some, List, [], if◌then◌else◌,
  Bool-cases, is_empty,
}
use kubernetes_cluster_monit.Prelude.Program.{
  Out, next, return, panic, Reply, pure, and_then, result, ended, program,
}
use kubernetes_cluster_monit.Prelude.Text.{Text, codes, text_eq}
use kubernetes_cluster_monit.Webhook.Mutation.{ignored_namespaces, mutation_required}
use kubernetes_cluster_monit.Webhook.Mutation.Decision.{mutation_required-steady}
use kubernetes_cluster_monit.Webhook.Patch.{Config}
use kubernetes_cluster_monit.Webhook.Server.{
  AdmissionRequest, AdmissionResponse, Codec, allowed_as_is, respond, inject, admit, serve,
}
use kubernetes_cluster_monit.Webhook.Server.Answers.{decision, answer}
use kubernetes_cluster_monit.Webhook.Start.{load_config, whsvr, handle}

-- The configuration file cannot be read, or its text is not YAML of a configuration.
abbrev pub CannotLoad : (Text → Reply Config) → Reply Text → Type 0
CannotLoad unmarshal file =
    ((err : Text) × (file.error ≡ some err))
    ⊎ ((file.error ≡ none) × ((err : Text) × ((unmarshal file.value).error ≡ some err)))

load_config-none :
    (unmarshal : Text → Reply Config) (file : Reply Text)
    → CannotLoad unmarshal file
    → (load_config unmarshal file).value ≡ none
unfolding load_config
load_config-none unmarshal file (inl (err, e)) = rw e
load_config-none unmarshal file (inr (ok, (err, e))) = rw (ok, load_config) (rw e)

module _ (k : Kube) (c : Codec) where
  admit-none :
      (pod : Pod) (b : Bool) (h : History)
      → result (mutation_required (some k) ignored_namespaces pod h).0 ≡ some b
      → (admit (some k) c none pod h).0 ≡ (if b then panic else next allowed_as_is)
  unfolding program
  admit-none pod b h = by_out (mutation_required (some k) ignored_namespaces pod h).0 _
    where
      by_answer :
          (x : Bool) (h' : History)
          → x ≡ b
          → ((if x then inject (some k) c pod none else pure allowed_as_is) h').0
            ≡ (if b then panic else next allowed_as_is)
      by_answer true h' x = rw (← x)
      by_answer false h' x = rw (← x)

      by_out :
          (o : Out Bool Bool) (h' : History)
          → result o ≡ some b
          → (and_then {R = AdmissionResponse}
              (ended o h').0
              (λ required. if required then inject (some k) c pod none else pure allowed_as_is)
              (ended {S = AdmissionResponse} o h').1).0
            ≡ (if b then panic else next allowed_as_is)
      by_out (next x) h' r = by_answer x h' (cc)
      by_out (return x) h' r = by_answer x h' (cc)
      by_out panic h' r = cc

  serve-none :
      (write : Text → Option Text) (sent : Text) (req : AdmissionRequest) (pod : Pod)
      {pods : Text → List Pod} {dps : List Deployment} {selector : Deployment → Text} (h : History)
      → IsSteady k pod.namespace pods dps selector
      → is_empty sent ≡ false
      → c.decode_review sent ≡ record { value = some req; error = none }
      → c.decode_pod req.raw ≡ record { value = pod; error = none }
      → (serve (some k) c none write sent (codes "application/json") h).0 ≡ (
          if decision k pod pods dps selector
          then panic
          else next (respond c write (answer req.uid false [])))
  unfolding serve program text_eq respond
  serve-none write sent req pod {pods} {dps} {selector} h steady e r p =
      let yes_or_no = decision k pod pods dps selector in
      let admitted : (admit (some k) c none pod h).0
          ≡ (if yes_or_no then panic else next allowed_as_is) =
        admit-none pod yes_or_no h (mutation_required-steady pod steady ignored_namespaces h) in
      rw e (
        rw r (
          rw r (
            rw p (
              rw p (
                rw admitted (elim (Bool-cases (decision k pod pods dps selector)) [
                  | inl d ↦ rw d refl
                  | inr d ↦ rw d refl
                ]))))))

-- A webhook whose configuration cannot be loaded starts all the same. Then, over a steady server, a
-- request that decodes to a pod is answered exactly if the decision is no: the pod is allowed as it is.
-- Where the decision is yes, the handler panics, and nothing is answered.
pub handle-unconfigured :
    (unmarshal : Text → Reply Config) (file : Reply Text) (k : Kube) (c : Codec)
    (write : Text → Option Text) (sent : Text) (req : AdmissionRequest) (pod : Pod)
    {pods : Text → List Pod} {dps : List Deployment} {selector : Deployment → Text} (h : History)
    → CannotLoad unmarshal file
    → IsSteady k pod.namespace pods dps selector
    → is_empty sent ≡ false
    → c.decode_review sent ≡ record { value = some req; error = none }
    → c.decode_pod req.raw ≡ record { value = pod; error = none }
    → (handle
        (whsvr unmarshal (record { value = some k; error = none }) file)
        c
        write
        sent
        (codes "application/json")
        h).0
      ≡ (if decision k pod pods dps selector
          then panic
          else next (respond c write (answer req.uid false [])))
handle-unconfigured unmarshal file k c write sent req pod h l steady e r p =
    ap (λ config. (serve (some k) c config write sent (codes "application/json") h).0)
      (load_config-none unmarshal file l)
    ∙ serve-none k c write sent req pod h steady e r p
