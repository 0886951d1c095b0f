-- ===== src/Controller/Handler/Complete.antt =====
-- What `ObjectCreated` gets done when no call fails.
use kubernetes_cluster_monit.Controller.Handler.{
  receiver, push_patch, pods_of, is_injected, restart_missing, carry_out, add_policy,
  visit_namespace, visit_all, object_created,
}
use kubernetes_cluster_monit.Controller.Handler.Allowed.{patch_bytes}
use kubernetes_cluster_monit.Controller.Handler.Covered.{
  IsObliging, IsRenewed, AreRenewed, IsCovered, IsVisited, IsRenewed-IsStable, IsCovered-IsStable,
  IsVisited-IsStable,
}
use kubernetes_cluster_monit.Controller.Policy.{Policy, policy, annotate}
use kubernetes_cluster_monit.Controller.Policy.Scope.{scope, scope-Completes}
use kubernetes_cluster_monit.Controller.Selector.{retrieve_expression}
use kubernetes_cluster_monit.Kube.{
  Pod, Deployment, listed_deployments, listed_pods, patched_deployment, History, Kube,
}
use kubernetes_cluster_monit.Prelude.{
  ◌≡◌, refl, subst, inl, inr, none, some, List, Memᴰ, Bool-cases, Option-cases, All,
}
use kubernetes_cluster_monit.Prelude.Dict.{Dict}
use kubernetes_cluster_monit.Prelude.Program.{
  Reply, ◌>>=◌, for_each, program, Mem-Extends, Completes, pure-Completes, call-Completes,
  bind-Completes, weaken-Completes, check-Completes, return_on_error-Completes, deref-Completes,
  for_each-Completes,
}
use kubernetes_cluster_monit.Prelude.Text.{Text}
use kubernetes_cluster_monit.Receiver.{Receiver}

module _ {k : Kube} (good : IsObliging k) where
  restart_missing-Completes :
      (ns : Text) (pod : Pod) (h : History)
      → Completes (restart_missing k ns pod) h (λ _. IsRenewed k ns pod)
  unfolding restart_missing
  restart_missing-Completes ns pod h = elim (Bool-cases (is_injected k pod)) [
    | inl e ↦ rw e (pure-Completes tt h (inl e))
    | inr e ↦ rw e (
        bind-Completes
          (call-Completes {Q = λ err h'. (err ≡ none) × IsRenewed k ns pod h'} _ _ h
            (good.deletes h ns pod.name, inr (k.delete h ns pod.name, Memᴰ.head refl)))
          (λ err h' g q. return_on_error-Completes err tt h' q.0 q.1))
  ]

  push_patch-Completes :
      (ns : Text) (dp : Deployment) (m : Dict) (h : History)
      → Completes
          (push_patch k ns (k.marshal dp).value (record dp { annotations = some m }))
          h
          (λ _ h'.
            (reply : Reply Deployment) × Memᴰ
              (patched_deployment ns dp.name (patch_bytes k dp m) reply)
              h')
  unfolding push_patch
  push_patch-Completes ns dp m h = check-Completes _ tt _ h (good.marshals _) (
      check-Completes _ tt _ h (good.compares _ _) (
        check-Completes _ tt _ h (good.encodes _) (
          bind-Completes
            (call-Completes
              {Q = λ r h'.
                ((k.patch h ns dp.name (patch_bytes k dp m)) ≡ r)
                × Memᴰ (patched_deployment ns dp.name (patch_bytes k dp m) r) h'}
              _ _ h (refl, Memᴰ.head refl))
            λ patched h' g q.
              check-Completes patched tt _ h'
                (subst (λ (r : Reply Deployment). r.error ≡ none) q.0 (good.patches h ns dp.name _))
                (check-Completes _ tt _ h' (good.shows _) (pure-Completes tt h' (patched, q.1))))))

  renew-Completes :
      (ns : Text) (dp : Deployment) (h : History)
      → Completes
          (pods_of k ns dp >>= λ pods. for_each (restart_missing k ns) pods)
          h
          (λ _. AreRenewed k ns dp)
  renew-Completes ns dp h =
      let (selector, selector_is) = good.selects dp.selector in
      bind-Completes (pods_of-Completes selector selector_is) λ pods h' g (reply, same, seen).
        weaken-Completes
          (for_each-Completes (restart_missing k ns) (IsRenewed k ns) pods h'
            (IsRenewed-IsStable k ns) (λ pod m h'' g'. restart_missing-Completes ns pod h''))
          (λ _ h'' g' all. record {
            selector = selector;
            reply = reply;
            selector_is = selector_is;
            seen = Mem-Extends g' seen;
            renewed = subst (All (λ pod. IsRenewed k ns pod h'')) same all;
          })
    where
      pods_of-Completes :
          (selector : Text)
          → (k.as_selector dp.selector).value ≡ some selector
          → Completes (pods_of k ns dp) h (λ pods h'.
            (reply : Reply (List Pod)) × (pods ≡ reply.value)
            × Memᴰ (listed_pods ns selector reply) h')
      pods_of-Completes selector e = deref-Completes _ _ h e (
          bind-Completes
            (call-Completes {Q = λ r h'. Memᴰ (listed_pods ns selector r) h'} _ _ h
              (Memᴰ.head refl))
            (λ reply h' g seen. pure-Completes reply.value h' (reply, refl, seen)))

  add_policy-Completes :
      (p : Policy) (ns : Text) (dp : Deployment) (h : History)
      → Completes (add_policy k p ns dp) h (λ _. IsCovered k p ns dp)
  unfolding add_policy carry_out
  add_policy-Completes p ns dp h =
      check-Completes _ tt _ h (good.marshals dp) (elim (Option-cases (annotate p dp.annotations)) [
        | inl e ↦ rw e (pure-Completes tt h (inl e))
        | inr (m, e) ↦ rw e (
            bind-Completes (push_patch-Completes ns dp m h) λ _ h' g patched.
              weaken-Completes (renew-Completes ns (record dp { annotations = some m }) h')
                (λ _ h'' g' r. inr (
                  m,
                  e,
                  (patched.0, Mem-Extends g' patched.1),
                  record {
                    selector = r.selector;
                    reply = r.reply;
                    selector_is = r.selector_is;
                    seen = r.seen;
                    renewed = r.renewed;
                  },
                )))
      ])

  visit_namespace-Completes :
      (p : Policy) (expression ns : Text) (h : History)
      → Completes
          (visit_namespace k (add_policy k p) expression ns)
          h
          (λ _. IsVisited k p expression ns)
  unfolding visit_namespace
  visit_namespace-Completes p expression ns h =
      bind-Completes
        (call-Completes
          {Q = λ r h'. (r.error ≡ none) × Memᴰ (listed_deployments ns expression r) h'} _ _ h
          (good.lists h ns expression, Memᴰ.head refl))
        λ reply h' g q. check-Completes reply tt _ h' q.0 (
          weaken-Completes
            (for_each-Completes (add_policy k p ns) (IsCovered k p ns) reply.value h'
              (IsCovered-IsStable k p ns) (λ dp m h'' g'. add_policy-Completes p ns dp h''))
            (λ _ h'' g' all. record { reply = reply; seen = Mem-Extends g' q.1; covered = all }))

  -- Where no call is refused, `ObjectCreated` comes to its end, and then each namespace of the
  -- policy's scope has been listed by the policy's selector, and each deployment of the listing either
  -- had the policy's annotation before, or was patched to have the policy; and of the pods listed for
  -- a patched deployment each had the sidecar or was deleted.
  pub object_created-Completes :
      (r : Receiver) (h : History)
      → Completes (object_created k (receiver r)) h (λ _ h'.
        All
          (λ ns. IsVisited k (policy r.spec) (retrieve_expression r.spec.label_selector) ns h')
          (scope r.spec.namespace))
  unfolding object_created visit_all program
  object_created-Completes r h =
      let expression = retrieve_expression r.spec.label_selector in
      let body = visit_namespace k (add_policy k (policy r.spec)) expression in
      scope-Completes body r.spec.namespace h (
        for_each-Completes body (λ ns. IsVisited k (policy r.spec) expression ns)
          (scope r.spec.namespace) h (IsVisited-IsStable k (policy r.spec) expression)
          (λ ns m h' g. visit_namespace-Completes (policy r.spec) expression ns h'))
