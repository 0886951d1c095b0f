-- ===== src/Webhook/Start/Clientless.antt =====
-- What a webhook does whose client could not be made.
use kubernetes_cluster_monit.Clients.{ClientGo, get_kubernetes_client}
use kubernetes_cluster_monit.Kube.{Pod, History, Kube}
use kubernetes_cluster_monit.Prelude.{
  ◌≡◌, refl, ap, ◌∙◌, inl, inr, Bool, false, ◌||◌, Option, none, some, [], arith, if◌then◌else◌,
  Bool-cases, is_empty,
}
use kubernetes_cluster_monit.Prelude.Program.{next, panic, Reply, program}
use kubernetes_cluster_monit.Prelude.Text.{Text, codes, text_eq}
use kubernetes_cluster_monit.Webhook.Mutation.{
  ignored_namespaces, is_ignored, has_status, mutation_required,
}
use kubernetes_cluster_monit.Webhook.Patch.{Config}
use kubernetes_cluster_monit.Webhook.Server.{
  AdmissionRequest, Codec, allowed_as_is, respond, admit, serve,
}
use kubernetes_cluster_monit.Webhook.Server.Answers.{answer}
use kubernetes_cluster_monit.Webhook.Start.{load_config, whsvr, handle}

get_kubernetes_client-failed :
    {RestConfig Receivers : Type 0} (lib : ClientGo RestConfig Kube Receivers)
    (kubeconfig err : Text)
    → (get_kubernetes_client lib kubeconfig).error ≡ some err
    → (get_kubernetes_client lib kubeconfig).value ≡ none
unfolding get_kubernetes_client
get_kubernetes_client-failed lib kubeconfig err e = ground arith

-- The namespace of the pod is ignored, or it has the sidecar already.
abbrev pub is_left_alone : Pod → Bool
is_left_alone pod = is_ignored ignored_namespaces pod.namespace || has_status pod.annotations

admit-clientless :
    (c : Codec) (config : Option Config) (pod : Pod) (h : History)
    → (admit none c config pod h).0 ≡ (if is_left_alone pod then next allowed_as_is else panic)
unfolding program mutation_required
admit-clientless c config pod h = elim (Bool-cases (is_ignored ignored_namespaces pod.namespace)) [
  | inl i ↦ rw i refl
  | inr i ↦ elim (Bool-cases (has_status pod.annotations)) [
    | inl s ↦ rw (i, s) refl
    | inr s ↦ rw (i, s) refl
  ]
]

serve-clientless :
    (c : Codec) (config : Option Config) (write : Text → Option Text) (sent : Text)
    (req : AdmissionRequest) (pod : Pod) (h : History)
    → is_empty sent ≡ false
    → c.decode_review sent ≡ record { value = some req; error = none }
    → c.decode_pod req.raw ≡ record { value = pod; error = none }
    → (serve none c config write sent (codes "application/json") h).0
      ≡ (if is_left_alone pod then next (respond c write (answer req.uid false [])) else panic)
unfolding serve program text_eq respond
serve-clientless c config write sent req pod h e r p =
    let admitted = admit-clientless c config pod h in
    rw e (
      rw r (
        rw r (
          rw p (
            rw p (
              rw admitted (elim (Bool-cases (is_left_alone pod)) [
                | inl d ↦ rw d refl
                | inr d ↦ rw d refl
              ]))))))

-- A webhook whose client cannot be made starts all the same. Then, whatever its configuration, a request
-- that decodes to a pod is answered only for a pod in an ignored namespace or with the sidecar: it is
-- allowed as it is. For every other pod the handler panics, and nothing is answered.
pub handle-clientless :
    {RestConfig Receivers : Type 0} (lib : ClientGo RestConfig Kube Receivers)
    (kubeconfig err : Text) (unmarshal : Text → Reply Config) (file : Reply Text) (c : Codec)
    (write : Text → Option Text) (sent : Text) (req : AdmissionRequest) (pod : Pod) (h : History)
    → (get_kubernetes_client lib kubeconfig).error ≡ some err
    → is_empty sent ≡ false
    → c.decode_review sent ≡ record { value = some req; error = none }
    → c.decode_pod req.raw ≡ record { value = pod; error = none }
    → (handle
        (whsvr unmarshal (get_kubernetes_client lib kubeconfig) file)
        c
        write
        sent
        (codes "application/json")
        h).0
      ≡ (if is_left_alone pod then next (respond c write (answer req.uid false [])) else panic)
handle-clientless lib kubeconfig err unmarshal file c write sent req pod h f e r p =
    ap
      (λ client.
        (serve client c (load_config unmarshal file).value write sent (codes "application/json")
          h).0)
      (get_kubernetes_client-failed lib kubeconfig err f)
    ∙ serve-clientless c (load_config unmarshal file).value write sent req pod h e r p
