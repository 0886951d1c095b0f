-- ===== src/Controller/Handler/Reconciles.antt =====
-- What the handlers make of a cluster that nobody else writes, against the policy as a specification.
pub mod Again
pub mod Restores
use kubernetes_cluster_monit.Controller.Handler.{
  receiver, restart_missing, restart_injected, add_policy, remove_policy, visit_namespace,
  visit_all, object_created, object_deleted,
}
use kubernetes_cluster_monit.Controller.Handler.Covered.{IsObliging}
use kubernetes_cluster_monit.Controller.Handler.Effect.{
  restart_missing-Alike, restart_injected-Alike, carry_out-Replaced,
}
use kubernetes_cluster_monit.Controller.Handler.Effect.Listed.{Changes, Replaced-self}
use kubernetes_cluster_monit.Controller.Handler.Effect.Whole.{
  AreDistinct, visited_all, visits-Completes,
}
use kubernetes_cluster_monit.Controller.Policy.{Policy, policy, annotate, unannotate}
use kubernetes_cluster_monit.Controller.Policy.Annotations.{
  annotate-annotate, unannotate-unannotate,
}
use kubernetes_cluster_monit.Controller.Policy.Scope.{scope, scope-Completes}
use kubernetes_cluster_monit.Controller.Selector.{retrieve_expression}
use kubernetes_cluster_monit.Kube.{Deployment, History, Kube}
use kubernetes_cluster_monit.Kube.Cluster.{Deployed, IsCluster, changed_by}
use kubernetes_cluster_monit.Prelude.{◌≡◌, inl, inr, Bool, true, Option, some, Option-cases, any}
use kubernetes_cluster_monit.Prelude.Dict.{Dict}
use kubernetes_cluster_monit.Prelude.Program.{program, Completes, pure-Completes, check-Completes}
use kubernetes_cluster_monit.Prelude.Text.{Text, text_eq}
use kubernetes_cluster_monit.Receiver.{ReceiverSpec, Receiver}

-- What a policy asks of the deployment of a name in a namespace: the change, if the namespace is in the
-- policy's scope and its selector takes the deployment, and nothing otherwise.
abbrev pub specified :
    (Text → Dict → Bool)
    → (Option Dict → Option Dict)
    → ReceiverSpec
    → (ns : Text) → Option Deployment
    → Option Deployment
specified selects change spec =
    visited_all selects change (retrieve_expression spec.label_selector) (scope spec.namespace)

abbrev pub Specified :
    Deployed
    → (Text → Dict → Bool)
    → (Option Dict → Option Dict)
    → ReceiverSpec
    → History
    → History
    → Type 0
Specified deployed selects change spec h h' =
    (ns name : Text) → deployed h' ns name ≡ specified selects change spec ns (deployed h ns name)

-- Every deployment that the policy is about has the policy's annotation.
abbrev pub AreAnnotated : Deployed → (Text → Dict → Bool) → ReceiverSpec → History → Type 0
AreAnnotated deployed selects spec h =
    (ns : Text)
    → any (λ n. text_eq n ns) (scope spec.namespace) ≡ true
    → (name : Text) (dp : Deployment) → deployed h ns name ≡ some dp
    → selects (retrieve_expression spec.label_selector) dp.labels ≡ true
    → (m : Dict) × (unannotate dp.annotations ≡ some m)

abbrev Always : Deployment → Type 0
Always dp = Unit

abbrev IsAnnotated : Deployment → Type 0
IsAnnotated dp = (m : Dict) × (unannotate dp.annotations ≡ some m)

module _ {k : Kube} (good : IsObliging k) {deployed : Deployed} {selects : Text → Dict → Bool}
    (cluster : IsCluster k deployed selects) where
  add_policy-Changes : (p : Policy) → Changes deployed (annotate p) Always (add_policy k p)
  unfolding add_policy
  add_policy-Changes p ns dp h current ready =
      check-Completes _ tt _ h (good.marshals dp) (elim (Option-cases (annotate p dp.annotations)) [
        | inl e ↦ rw (e, changed_by) (pure-Completes tt h (Replaced-self deployed ns dp h current))
        | inr (m, e) ↦
            rw (e, changed_by)
              (carry_out-Replaced good cluster (restart_missing k)
                (restart_missing-Alike good cluster) ns dp m h current)
      ])

  remove_policy-Changes : Changes deployed unannotate IsAnnotated (remove_policy k)
  unfolding remove_policy
  remove_policy-Changes ns dp h current (m, e) = check-Completes _ tt _ h (good.marshals dp) (
      rw (e, changed_by)
        (carry_out-Replaced good cluster (restart_injected k) (restart_injected-Alike good cluster)
          ns dp m h current))

  -- `ObjectCreated` implements the specification of a policy: where nobody else writes the deployments and
  -- no call fails, it comes to its end, and then every deployment in the policy's scope that its selector
  -- takes is the one before with the policy written into its annotations, or the same if it had a policy,
  -- and every other deployment, in all namespaces, is the same.
  pub object_created-Specified :
      (r : Receiver) (h : History)
      → Completes
          (object_created k (receiver r))
          h
          (λ _ h'. Specified deployed selects (annotate (policy r.spec)) r.spec h h')
  unfolding object_created visit_all program
  object_created-Specified r h =
      let p = policy r.spec in
      let expression = retrieve_expression r.spec.label_selector in
      scope-Completes (visit_namespace k (add_policy k p) expression) r.spec.namespace h (
        visits-Completes good cluster (annotate-annotate p p) (add_policy k p)
          (add_policy-Changes p) expression (scope r.spec.namespace) h (inr (λ dp. tt))
          (λ ns m name dp e s. tt))

  -- `ObjectDeleted` implements its specification as well, where moreover each deployment that the policy is
  -- about has the policy's annotation, and no namespace is named twice: the policy is taken out of
  -- those, and every other deployment is the same.
  pub object_deleted-Specified :
      (r : Receiver) (h : History)
      → AreDistinct (scope r.spec.namespace)
      → AreAnnotated deployed selects r.spec h
      → Completes
          (object_deleted k (receiver r))
          h
          (λ _ h'. Specified deployed selects unannotate r.spec h h')
  unfolding object_deleted visit_all program
  object_deleted-Specified r h distinct annotated =
      let expression = retrieve_expression r.spec.label_selector in
      scope-Completes (visit_namespace k (remove_policy k) expression) r.spec.namespace h (
        visits-Completes good cluster unannotate-unannotate (remove_policy k) remove_policy-Changes
          expression (scope r.spec.namespace) h (inl distinct) annotated)
