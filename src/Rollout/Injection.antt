-- ===== src/Rollout/Injection.antt =====
-- From the annotations of the controller to the decision of the webhook.
use kubernetes_cluster_monit.Controller.Policy.{Policy, annotate}
use kubernetes_cluster_monit.Controller.Policy.Annotations.{annotate-lookup}
use kubernetes_cluster_monit.Keys.{
  annotation_key, annotation_value, group_label_key, action_key, log_frequency_key,
}
use kubernetes_cluster_monit.Kube.{Pod, Deployment, History, Kube}
use kubernetes_cluster_monit.Kube.Steady.{IsSteady, has_policy, covers}
use kubernetes_cluster_monit.Prelude.{
  ◌≡◌, ◌∙◌, true, false, Option, some, List, Memᴰ, arith, any, any-Mem,
}
use kubernetes_cluster_monit.Prelude.Dict.{Dict, lookup}
use kubernetes_cluster_monit.Prelude.Program.{result}
use kubernetes_cluster_monit.Prelude.Text.{Text, text_eq}
use kubernetes_cluster_monit.Webhook.Mutation.{is_ignored, has_status, mutation_required}
use kubernetes_cluster_monit.Webhook.Mutation.Decision.{mutation_required-steady}

-- A deployment with the annotations that `annotate` made.
abbrev pub annotated : Deployment → Dict → Deployment
annotated dp m = record dp { annotations = some m }

-- A policy always writes the annotation by which the other parts know it.
lookup-annotation_key :
    (p : Policy) (a : Option Dict) (m : Dict)
    → annotate p a ≡ some m
    → lookup annotation_key m ≡ some annotation_value
unfolding annotation_key group_label_key action_key log_frequency_key text_eq
lookup-annotation_key p a m e = annotate-lookup p a m e annotation_key

pub annotate-has_policy :
    (p : Policy) (dp : Deployment) (m : Dict)
    → annotate p dp.annotations ≡ some m
    → has_policy (annotated dp m) ≡ true
annotate-has_policy p dp m e = rw (lookup-annotation_key p dp.annotations m e, has_policy)

-- Over a steady server, a pod gets the sidecar whose deployment has a policy of the controller: where
-- the deployment is among those of the pod's namespace, and selects a pod that has the name of some
-- pod with the labels of the new one, the webhook says yes for every new pod outside the ignored
-- namespaces that has no status of an injection, also for one whose own annotation says no.
pub annotate-mutation_required :
    {k : Kube} (pod : Pod) {pods : Text → List Pod} {dps : List Deployment}
    {selector : Deployment → Text} (steady : IsSteady k pod.namespace pods dps selector)
    (ignored : List Text) (h : History) (p : Policy) (dp : Deployment) (m : Dict) (q r : Pod)
    → annotate p dp.annotations ≡ some m
    → Memᴰ (annotated dp m) dps
    → Memᴰ q (pods (selector (annotated dp m)))
    → Memᴰ r (pods (k.set_selector pod.labels))
    → text_eq q.name r.name ≡ true
    → is_ignored ignored pod.namespace ≡ false
    → has_status pod.annotations ≡ false
    → result (mutation_required (some k) ignored pod h).0 ≡ some true
annotate-mutation_required {k} pod {pods} {dps} {selector} steady ignored h p dp m q r a d s l n i
      st =
    let covered : covers pods selector r.name (annotated dp m) ≡ true =
      rw (annotate-has_policy p dp m a)
        (any-Mem (λ x. text_eq x.name r.name) q (pods (selector (annotated dp m))) s n) in
    let found : any (covers pods selector r.name) dps ≡ true =
      any-Mem (covers pods selector r.name) (annotated dp m) dps d covered in
    mutation_required-steady pod steady ignored h
    ∙ rw (i, st)
        (rw (any-Mem (λ (x : Pod). any (covers pods selector x.name) dps) r _ l found)
          (ground arith))
