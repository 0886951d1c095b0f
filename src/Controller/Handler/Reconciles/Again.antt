-- ===== src/Controller/Handler/Reconciles/Again.antt =====
-- A policy that the controller handles a second time, as after a restart, when the informer hands over
-- every policy anew.
use mathlib.Core.Option
use kubernetes_cluster_monit.Controller.Handler.{
  receiver, add_policy, visit_namespace, visit_all, object_created,
}
use kubernetes_cluster_monit.Controller.Handler.Covered.{IsObliging}
use kubernetes_cluster_monit.Controller.Handler.Effect.{Alike}
use kubernetes_cluster_monit.Controller.Handler.Effect.Visits.{some-same}
use kubernetes_cluster_monit.Controller.Handler.Effect.Whole.{
  IsFinal, changed_by-none, changed_by-some,
}
use kubernetes_cluster_monit.Controller.Handler.Reconciles.{Specified, object_created-Specified}
use kubernetes_cluster_monit.Controller.Policy.{Policy, policy, annotate}
use kubernetes_cluster_monit.Controller.Policy.Annotations.{annotate-annotate}
use kubernetes_cluster_monit.Controller.Policy.Scope.{scope, scope-Completes}
use kubernetes_cluster_monit.Controller.Selector.{retrieve_expression}
use kubernetes_cluster_monit.Controller.Selector.Reordered.{with_labels, IsReordering}
use kubernetes_cluster_monit.Kube.{Deployment, Event, listed_deployments, History, Kube}
use kubernetes_cluster_monit.Kube.Cluster.{writes, Deployed, IsCluster, changed_by, changed_if}
use kubernetes_cluster_monit.Prelude.{
  ◌≡◌, refl, sym, ap, ◌∙◌, inl, inr, Bool, true, false, Option, none, some, List, arith, Bool-cases,
  Option-cases, all, All, All-members, any, any-Mem,
}
use kubernetes_cluster_monit.Prelude.Dict.{Dict}
use kubernetes_cluster_monit.Prelude.Program.{
  ◌>>◌, for_each, program, Since, begun, followed, Completes, pure-Completes, call-Completes,
  bind-Completes, weaken-Completes, check-Completes, for_each_rest-Completes,
}
use kubernetes_cluster_monit.Prelude.Text.{Text, text_eq, text_eq_refl}
use kubernetes_cluster_monit.Receiver.{ReceiverSpec, Receiver}

abbrev is_listing : Event → Bool
is_listing (listed_deployments ns selector reply) = true
is_listing _ = false

-- The call lists deployments.
abbrev pub Lists : History → Event → Type 0
Lists h e = is_listing e ≡ true

is_listing-writes : (e : Event) → is_listing e ≡ true → writes e ≡ false
is_listing-writes e l = ground arith

-- No deployment that the selector takes is changed by the policy, in the namespaces of its scope.
abbrev pub AreSettled :
    Deployed
    → (Text → Dict → Bool)
    → (Option Dict → Option Dict)
    → Text
    → List Text
    → History
    → Type 0
AreSettled deployed selects change sel nss h =
    (ns : Text)
    → any (λ n. text_eq n ns) nss ≡ true
    → (name : Text) (dp : Deployment) → deployed h ns name ≡ some dp
    → selects sel dp.labels ≡ true
    → change dp.annotations ≡ none

changed_by-settled :
    (change : Option Dict → Option Dict) (dp : Deployment)
    → IsFinal change
    → change (changed_by change dp).annotations ≡ none
changed_by-settled change dp final = elim (Option-cases (change dp.annotations)) [
  | inl n ↦ ap (λ (d : Deployment). change d.annotations) (changed_by-none change dp n) ∙ n
  | inr (m, e) ↦
      ap (λ (d : Deployment). change d.annotations) (changed_by-some change dp m e)
      ∙ final dp.annotations m e
]

changed_if-settled :
    (selects : Text → Dict → Bool) (change : Option Dict → Option Dict) (sel : Text)
    (o : Option Deployment) (dp : Deployment)
    → IsFinal change
    → Option.map (changed_if selects change sel) o ≡ some dp
    → selects sel dp.labels ≡ true
    → change dp.annotations ≡ none
changed_if-settled selects change sel none dp final e s = ground arith
changed_if-settled selects change sel (some d) dp final e s =
    elim (Bool-cases (selects sel d.labels)) [
      | inl t ↦
          let same : changed_by change d ≡ dp = sym (rw t refl) ∙ some-same refl e in
          ap (λ (x : Deployment). change x.annotations) (sym same)
          ∙ changed_by-settled change d final
      | inr f ↦
          let same : d ≡ dp = sym (rw f refl) ∙ some-same refl e in
          let c : true ≡ false =
            sym s ∙ ap (λ (x : Deployment). selects sel x.labels) (sym same) ∙ f in
          cc
    ]

Lists-Alike :
    {k : Kube} {deployed : Deployed} {selects : Text → Dict → Bool}
    → IsCluster k deployed selects
    → (h h' : History) → Since Lists h h'
    → Alike deployed h h'
Lists-Alike cluster h h' begun ns name = refl
Lists-Alike cluster h h' (followed {h = h''} {e = e} s l) ns name =
    cluster.keeps h'' e ns name (is_listing-writes e l) ∙ Lists-Alike cluster h h'' s ns name

pub Specified-AreSettled :
    (deployed : Deployed) (selects : Text → Dict → Bool) (change : Option Dict → Option Dict)
    (spec : ReceiverSpec) (h h' : History)
    → IsFinal change
    → Specified deployed selects change spec h h'
    → AreSettled deployed selects change
        (retrieve_expression spec.label_selector)
        (scope spec.namespace)
        h'
Specified-AreSettled deployed selects change spec h h' final sp ns m name dp e s =
    changed_if-settled selects change (retrieve_expression spec.label_selector) (deployed h ns name)
      dp final (rw m refl ∙ sym (sp ns name) ∙ e) s

module _ {k : Kube} (good : IsObliging k) {deployed : Deployed} {selects : Text → Dict → Bool}
    (cluster : IsCluster k deployed selects) (p : Policy) (sel : Text) (nss : List Text)
    (h : History) (settled : AreSettled deployed selects (annotate p) sel nss h) where
  add_policy-Lists :
      (ns : Text) (dp : Deployment) (h' : History)
      → annotate p dp.annotations ≡ none
      → Since Lists h h'
      → Completes (add_policy k p ns dp) h' (λ _. Since Lists h)
  unfolding add_policy
  add_policy-Lists ns dp h' n s =
      check-Completes _ tt _ h' (good.marshals dp) (rw n (pure-Completes tt h' s))

  visit_namespace-Lists :
      (ns : Text) (h' : History)
      → any (λ n. text_eq n ns) nss ≡ true
      → Since Lists h h'
      → Completes (visit_namespace k (add_policy k p) sel ns) h' (λ _. Since Lists h)
  unfolding visit_namespace
  visit_namespace-Lists ns h' m s =
      bind-Completes
        (call-Completes
          {Q = λ r h''.
            (r.error ≡ none)
            × Since Lists h h''
            × All (λ dp. annotate p dp.annotations ≡ none) r.value}
          _ _ h' (good.lists h' ns sel, followed s refl, unchanged))
        λ reply h'' g (fine, s', all). check-Completes reply tt _ h'' fine (
          weaken-Completes
            (for_each_rest-Completes (add_policy k p ns)
              (λ rest h₃. Since Lists h h₃ × All (λ dp. annotate p dp.annotations ≡ none) rest)
              reply.value h'' (s', all)
              (λ dp rest h₃ q.
                weaken-Completes (add_policy-Lists ns dp h₃ q.1.0 q.0) (λ _ h₄ g' s₄. (s₄, q.1.1))))
            (λ _ h₃ g' q. q.0))
    where
      unchanged : All (λ dp. annotate p dp.annotations ≡ none) (k.deployments h' ns sel).value
      unchanged = All-members _ (k.deployments h' ns sel).value λ dp l.
          let (e, t) = cluster.shows_deployed h' ns sel dp l in
          settled ns m dp.name dp (sym (Lists-Alike cluster h h' s ns dp.name) ∙ e) t

  visits-Lists :
      Completes (for_each (visit_namespace k (add_policy k p) sel) nss) h (λ _. Since Lists h)
  visits-Lists =
      weaken-Completes
        (for_each_rest-Completes (visit_namespace k (add_policy k p) sel)
          (λ rest h'. Since Lists h h' × All (λ ns. any (λ n. text_eq n ns) nss ≡ true) rest) nss h
          (
            begun,
            All-members _ nss (λ ns m. any-Mem (λ n. text_eq n ns) ns nss m (text_eq_refl ns)),
          )
          (λ ns rest h' q.
            weaken-Completes (visit_namespace-Lists ns h' q.1.0 q.0) (λ _ h'' g s. (s, q.1.1))))
        (λ _ h' g q. q.0)

-- What two runs in succession leave: the specified state after the first, and only listings since.
pub record IsSpecifiedOnce (deployed : Deployed) (selects : Text → Dict → Bool) (r : Receiver)
    (h h'' : History) : Type 0 where
  pub between : History
  pub specified_then : Specified deployed selects (annotate (policy r.spec)) r.spec h between
  pub lists_since : Since Lists between h''

module _ {k : Kube} (good : IsObliging k) {deployed : Deployed} {selects : Text → Dict → Bool}
    (cluster : IsCluster k deployed selects) where
  object_created-Lists :
      (r : Receiver) (h : History)
      → AreSettled deployed selects
          (annotate (policy r.spec))
          (retrieve_expression r.spec.label_selector)
          (scope r.spec.namespace)
          h
      → Completes (object_created k (receiver r)) h (λ _. Since Lists h)
  unfolding object_created visit_all program
  object_created-Lists r h settled =
      let p = policy r.spec in
      let expression = retrieve_expression r.spec.label_selector in
      scope-Completes (visit_namespace k (add_policy k p) expression) r.spec.namespace h
        (visits-Lists good cluster p expression (scope r.spec.namespace) h settled)

  -- A policy is handled a second time without a change, also where its labels are visited in another order
  -- then, of which the server takes the same: where nobody else writes the deployments and no call fails,
  -- two runs of `ObjectCreated` after each other come to their end, after the first the deployments are as
  -- specified, and the second does nothing but list deployments: it patches none and deletes no pod.
  pub object_created-again :
      (r : Receiver) (m : Dict) (h : History)
      → IsReordering selects r.spec.label_selector m
      → Completes
          (object_created k (receiver r) >> object_created k (receiver (with_labels m r)))
          h
          (λ _. IsSpecifiedOnce deployed selects r h)
  object_created-again r m h again =
      bind-Completes (object_created-Specified good cluster r h) λ _ h' g sp.
        let settled =
          Specified-AreSettled deployed selects (annotate (policy r.spec)) r.spec h h'
            (annotate-annotate (policy r.spec) (policy r.spec)) sp in
        weaken-Completes
          (object_created-Lists (with_labels m r) h'
            (λ ns l name dp e s. settled ns l name dp e (sym (again.same_taken dp.labels) ∙ s)))
          (λ _ h'' g' s. record { between = h'; specified_then = sp; lists_since = s })
