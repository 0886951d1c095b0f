-- ===== src/Webhook/Mutation/OptIn.antt =====
-- A pod that opts in by its own annotation.
use kubernetes_cluster_monit.Kube.{
  Pod, Deployment, Event, listed_deployments, History, Kube, list_pods,
}
use kubernetes_cluster_monit.Kube.Steady.{has_policy}
use kubernetes_cluster_monit.Prelude.{
  ◌≡◌, refl, inl, inr, Bool, true, false, Option, none, some, List, [], ◌∷◌, arith, if◌then◌else◌,
  Bool-cases,
}
use kubernetes_cluster_monit.Prelude.Program.{
  Out, next, return, panic, Prog, Reply, pure, and_then, ◌>>=◌, return_on_error, deref, for_state,
  program,
}
use kubernetes_cluster_monit.Prelude.Text.{Text}
use kubernetes_cluster_monit.Webhook.Mutation.{
  is_ignored, has_status, opts_in, scan, scan_reply, visit_deployment, visit_pod, mutation_required,
}

-- The program answers `true`, or panics.
abbrev pub SaysYes : Out Bool Bool → Type 0
SaysYes (next b) = b ≡ true
SaysYes (return b) = b ≡ true
SaysYes panic = Unit

-- The same of a loop body, which also says whether to break.
abbrev StaysYes : Out Bool (Bool × Bool) → Type 0
StaysYes (next (b, stop)) = b ≡ true
StaysYes (return b) = b ≡ true
StaysYes panic = Unit

module _ {A : Type 0} (body : A → Bool → Prog Event Bool (Bool × Bool)) where
  for_state-SaysYes :
      ((x : A) (h : History) → StaysYes (body x true h).0)
      → (xs : List A) (h : History) → SaysYes (for_state body xs true h).0
  unfolding for_state program
  for_state-SaysYes yes_each [] h = refl
  for_state-SaysYes yes_each (x ∷ xs) h =
      by_out (body x true h).0 (body x true h).1 (yes_each x h) (for_state-SaysYes yes_each xs)
    where
      by_out :
          (o : Out Bool (Bool × Bool)) (h' : History)
          → StaysYes o
          → ((h'' : History) → SaysYes (for_state body xs true h'').0)
          → SaysYes
              (and_then o
                (λ after. if after.1 then pure after.0 else for_state body xs after.0)
                h').0
      by_out (next (true, true)) h' y ih = refl
      by_out (next (true, false)) h' y ih = ih h'
      by_out (next (false, stop)) h' y ih = cc
      by_out (return b) h' y ih = y
      by_out panic h' y ih = tt

scan_true : (name : Text) (qs : List Pod) → scan name qs true ≡ true
unfolding scan
scan_true name [] = refl
scan_true name (q ∷ qs) = ground (arith, scan_true name qs)

module _ (k : Kube) (ns : Text) where
  scan_reply-StaysYes :
      (name : Text) (reply : Reply (List Pod)) → (scan_reply k name true reply).0 ≡ true
  scan_reply-StaysYes name reply = ground (arith, scan_true name reply.value)

  visit_deployment-StaysYes :
      (name : Text) (dp : Deployment) (h : History)
      → StaysYes (visit_deployment k ns name dp true h).0
  unfolding visit_deployment program
  visit_deployment-StaysYes name dp h = elim (Bool-cases (has_policy dp)) [
    | inl e ↦ rw e (by_selector (k.as_selector dp.selector).value)
    | inr e ↦ rw e
  ]
    where
      by_selector :
          (o : Option Text)
          → StaysYes
              ((deref o >>= λ selector.
                  list_pods k ns selector >>= λ reply. pure (scan_reply k name true reply))
                h).0
      by_selector none = tt
      by_selector (some selector) = scan_reply-StaysYes name (k.pods h ns selector)

  visit_pod-StaysYes : (p : Pod) (h : History) → StaysYes (visit_pod k ns p true h).0
  unfolding visit_pod program
  visit_pod-StaysYes p h = by_error (k.deployments h ns []).error
    where
      by_loop :
          (o : Out Bool Bool) (h' : History)
          → SaysYes o
          → StaysYes (and_then o (λ after. pure (after, after)) h').0
      by_loop (next b) h' y = y
      by_loop (return b) h' y = y
      by_loop panic h' y = tt

      by_error :
          (e : Option Text)
          → StaysYes
              ((return_on_error e true >>= λ _.
                  for_state (visit_deployment k ns p.name) (k.deployments h ns []).value true
                  >>= λ after. pure (after, after))
                (listed_deployments ns [] (k.deployments h ns []) ∷ h)).0
      by_error none = by_loop _ _ (
          for_state-SaysYes (visit_deployment k ns p.name) (visit_deployment-StaysYes p.name)
            (k.deployments h ns []).value _)
      by_error (some e) = refl

-- Whatever the server answers, also with errors, a pod outside the ignored namespaces, with no status
-- of an injection, whose own annotation says yes is never refused: the function answers `true`, or it
-- panics on a malformed selector.
pub mutation_required-SaysYes :
    (k : Kube) (ignored : List Text) (pod : Pod) (h : History)
    → is_ignored ignored pod.namespace ≡ false
    → has_status pod.annotations ≡ false
    → opts_in pod.annotations ≡ true
    → SaysYes (mutation_required (some k) ignored pod h).0
unfolding mutation_required program
mutation_required-SaysYes k ignored pod h i s o =
    rw (i, s, o)
      (for_state-SaysYes (visit_pod k pod.namespace) (visit_pod-StaysYes k pod.namespace) _ _)
