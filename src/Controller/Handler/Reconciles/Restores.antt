-- ===== src/Controller/Handler/Reconciles/Restores.antt =====
-- A policy that is made and deleted again.
use mathlib.Core.Option
use kubernetes_cluster_monit.Controller.Handler.{receiver, object_created, object_deleted}
use kubernetes_cluster_monit.Controller.Handler.Covered.{IsObliging}
use kubernetes_cluster_monit.Controller.Handler.Effect.Whole.{
  AreDistinct, changed_by-none, changed_by-some, changed_by-labels,
}
use kubernetes_cluster_monit.Controller.Handler.Reconciles.{
  specified, Specified, AreAnnotated, object_created-Specified, object_deleted-Specified,
}
use kubernetes_cluster_monit.Controller.Handler.Reconciles.Again.{Specified-AreSettled}
use kubernetes_cluster_monit.Controller.Policy.{Policy, policy, annotate, strip_policy, unannotate}
use kubernetes_cluster_monit.Controller.Policy.Annotations.{
  is_policy_key, lookup-strip_policy, annotate-annotate, unannotate-annotate, annotate-none,
}
use kubernetes_cluster_monit.Controller.Policy.Scope.{scope}
use kubernetes_cluster_monit.Controller.Selector.{retrieve_expression}
use kubernetes_cluster_monit.Controller.Selector.Reordered.{with_labels, IsReordering}
use kubernetes_cluster_monit.Kube.{Deployment, History, Kube}
use kubernetes_cluster_monit.Kube.Cluster.{Deployed, IsCluster, changed_by}
use kubernetes_cluster_monit.Prelude.{
  ◌≡◌, refl, sym, ap, ◌∙◌, inl, inr, Bool, ◌&&◌, Option, none, some, arith, if◌then◌else◌,
  Bool-cases, Option-cases, any,
}
use kubernetes_cluster_monit.Prelude.Dict.{Dict, lookup, entries}
use kubernetes_cluster_monit.Prelude.Program.{◌>>◌, Completes, bind-Completes, weaken-Completes}
use kubernetes_cluster_monit.Prelude.Text.{Text, text_eq}
use kubernetes_cluster_monit.Receiver.{ReceiverSpec, Receiver}

-- A deployment without its annotations.
abbrev pub bare : Deployment → Deployment
bare dp = record dp { annotations = none }

abbrev pub annotation : Text → Deployment → Option Text
annotation key dp = lookup key (entries dp.annotations)

-- What a policy that came and went leaves of an annotation: it takes the five keys of the sidecar
-- injection from the deployments that it was about.
abbrev pub left_annotation :
    (Text → Dict → Bool) → ReceiverSpec → (ns key : Text) → Deployment → Option Text
left_annotation selects spec ns key dp =
    if any (λ n. text_eq n ns) (scope spec.namespace)
      && (selects (retrieve_expression spec.label_selector) dp.labels && is_policy_key key)
    then none
    else annotation key dp

-- Every deployment has the annotations that are left of it, and everything else as before.
pub record IsRestored (deployed : Deployed) (selects : Text → Dict → Bool) (spec : ReceiverSpec)
    (h h'' : History) : Type 0 where
  pub annotations_left :
      (ns name key : Text)
      → Option.map (annotation key) (deployed h'' ns name)
        ≡ Option.map (left_annotation selects spec ns key) (deployed h ns name)
  pub rest_same :
      (ns name : Text)
      → Option.map bare (deployed h'' ns name) ≡ Option.map bare (deployed h ns name)

bare-changed_by :
    (change : Option Dict → Option Dict) (dp : Deployment) → bare (changed_by change dp) ≡ bare dp
bare-changed_by change dp = elim (Option-cases (change dp.annotations)) [
  | inl n ↦ ap bare (changed_by-none change dp n)
  | inr (m, e) ↦ ap bare (changed_by-some change dp m e)
]

annotation-left :
    (p : Policy) (dp : Deployment) (key : Text)
    → annotation key (changed_by unannotate (changed_by (annotate p) dp))
      ≡ (if is_policy_key key then none else annotation key dp)
annotation-left p dp key = elim (Option-cases (annotate p dp.annotations)) [
  | inl n ↦
      ap (λ d. annotation key (changed_by unannotate d)) (changed_by-none (annotate p) dp n)
      ∙ ap (annotation key) (
          changed_by-some unannotate dp (strip_policy (entries dp.annotations))
            (annotate-none p dp.annotations n))
      ∙ lookup-strip_policy (entries dp.annotations) key
  | inr (m, e) ↦
      let (m', e', left) = unannotate-annotate p dp.annotations m e in
      ap (λ d. annotation key (changed_by unannotate d)) (changed_by-some (annotate p) dp m e)
      ∙ ap (annotation key) (changed_by-some unannotate (record dp { annotations = some m }) m' e')
      ∙ left key
]

module _ (selects : Text → Dict → Bool) (p : Policy) (spec : ReceiverSpec) where
  abbrev came_and_went : (ns : Text) → Option Deployment → Option Deployment
  came_and_went ns o =
      specified selects unannotate spec ns (specified selects (annotate p) spec ns o)

  came_and_went-annotation :
      (ns key : Text) (o : Option Deployment)
      → Option.map (annotation key) (came_and_went ns o)
        ≡ Option.map (left_annotation selects spec ns key) o
  came_and_went-annotation ns key none = ground arith
  came_and_went-annotation ns key (some dp) =
      let sel = retrieve_expression spec.label_selector in
      elim (Bool-cases (any (λ n. text_eq n ns) (scope spec.namespace))) [
        | inl t ↦ elim (Bool-cases (selects sel dp.labels)) [
          | inl s ↦
              rw (t, s)
                (rw (changed_by-labels (annotate p) dp, s) (ap some (annotation-left p dp key)))
          | inr s ↦ rw (t, s) (rw s refl)
        ]
        | inr f ↦ rw f refl
      ]

  came_and_went-bare :
      (ns : Text) (o : Option Deployment) → Option.map bare (came_and_went ns o) ≡ Option.map bare o
  came_and_went-bare ns none = ground arith
  came_and_went-bare ns (some dp) =
      let sel = retrieve_expression spec.label_selector in
      elim (Bool-cases (any (λ n. text_eq n ns) (scope spec.namespace))) [
        | inl t ↦ elim (Bool-cases (selects sel dp.labels)) [
          | inl s ↦
              rw (t, s)
                (rw (changed_by-labels (annotate p) dp, s)
                  (ap some (
                    bare-changed_by unannotate (changed_by (annotate p) dp)
                    ∙ bare-changed_by (annotate p) dp)))
          | inr s ↦ rw (t, s) (rw s refl)
        ]
        | inr f ↦ rw f refl
      ]

module _ {k : Kube} (good : IsObliging k) {deployed : Deployed} {selects : Text → Dict → Bool}
    (cluster : IsCluster k deployed selects) where
  Specified-AreAnnotated :
      (r : Receiver) (h h' : History)
      → Specified deployed selects (annotate (policy r.spec)) r.spec h h'
      → AreAnnotated deployed selects r.spec h'
  Specified-AreAnnotated r h h' sp ns m name dp e s =
      let p = policy r.spec in
      (
        strip_policy (entries dp.annotations),
        annotate-none p dp.annotations (
            Specified-AreSettled deployed selects (annotate p) r.spec h h' (annotate-annotate p p)
              sp ns m name dp e s),
      )

  -- What is specified is the same for the labels in another order.
  specified-with_labels :
      (r : Receiver) (m : Dict) (ns : Text) (o : Option Deployment)
      → IsReordering selects r.spec.label_selector m
      → specified selects unannotate (with_labels m r).spec ns o
        ≡ specified selects unannotate r.spec ns o
  specified-with_labels r m ns none again = refl
  specified-with_labels r m ns (some dp) again =
      ap
        (λ b.
          if any (λ n. text_eq n ns) (scope r.spec.namespace)
          then some (if b then changed_by unannotate dp else dp)
          else some dp)
        (again.same_taken dp.labels)

  -- A policy that is made and deleted again, with no namespace named twice, leaves the cluster as it
  -- was, but for the five annotations of the sidecar injection, also where its labels are visited in
  -- another order for the deletion, of which the server takes the same: where nobody else writes the
  -- deployments and no call fails, `ObjectCreated` and then `ObjectDeleted` come to their end, every
  -- deployment outside the policy's scope or selector is the same, and the others have lost the five keys
  -- and nothing else, also those that had them before the policy.
  pub object_deleted-created :
      (r : Receiver) (m : Dict) (h : History)
      → AreDistinct (scope r.spec.namespace)
      → IsReordering selects r.spec.label_selector m
      → Completes
          (object_created k (receiver r) >> object_deleted k (receiver (with_labels m r)))
          h
          (λ _. IsRestored deployed selects r.spec h)
  object_deleted-created r m h distinct again =
      let p = policy r.spec in
      bind-Completes (object_created-Specified good cluster r h) λ _ h' g sp.
        let annotated = Specified-AreAnnotated r h h' sp in
        weaken-Completes
          (object_deleted-Specified good cluster (with_labels m r) h' distinct
            (λ ns l name dp e s. annotated ns l name dp e (sym (again.same_taken dp.labels) ∙ s)))
          (λ _ h'' g' sp'.
            let both : (ns name : Text)
                → deployed h'' ns name ≡ came_and_went selects p r.spec ns (deployed h ns name) =
              λ ns name.
                sp' ns name
                ∙ specified-with_labels r m ns (deployed h' ns name) again
                ∙ ap (specified selects unannotate r.spec ns) (sp ns name) in
            record {
              annotations_left = λ ns name key.
                  ap (Option.map (annotation key)) (both ns name)
                  ∙ came_and_went-annotation selects p r.spec ns key (deployed h ns name);
              rest_same = λ ns name.
                  ap (Option.map bare) (both ns name)
                  ∙ came_and_went-bare selects p r.spec ns (deployed h ns name);
            })
