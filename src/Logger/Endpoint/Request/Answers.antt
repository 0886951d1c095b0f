-- ===== src/Logger/Endpoint/Request/Answers.antt =====
-- What the answer of `takeAction` says.
use kubernetes_cluster_monit.Clients.{ClientGo, get_kubernetes_client}
use kubernetes_cluster_monit.Kube.{History, Kube}
use kubernetes_cluster_monit.Logger.Endpoint.Action.{Answer, unwritten, created}
use kubernetes_cluster_monit.Logger.Endpoint.Action.Audit.{
  Quarantines, WasQuarantined, take_action-Triple,
}
use kubernetes_cluster_monit.Logger.Endpoint.Request.{handle_action}
use kubernetes_cluster_monit.Prelude.{◌≡◌, subst, inl, inr, List, Option-cases, All}
use kubernetes_cluster_monit.Prelude.Program.{
  Out, next, Since, begun, After, Triple, pure_post-Triple, exit-Triple, bind-Triple,
  deref_bind-Triple,
}
use kubernetes_cluster_monit.Prelude.Text.{Text}

-- The names of an answer were all quarantined.
abbrev pub IsTrue : Answer → History → Type 0
IsTrue unwritten h = Unit
IsTrue (created names) h = All (WasQuarantined h) names

module _ {RestConfig Receivers : Type 0} (lib : ClientGo RestConfig Kube Receivers)
    (h₀ : History) where
  handle_action-Triple :
      (kubeconfig podname : Text)
      → Triple (Since Quarantines h₀) (λ _. Unit) (handle_action lib kubeconfig podname) IsTrue
  unfolding handle_action
  handle_action-Triple kubeconfig podname =
      elim (Option-cases (get_kubernetes_client lib kubeconfig).error) [
        | inr (err, e) ↦ rw (e, handle_action) (exit-Triple unwritten)
        | inl e ↦
            rw (e, handle_action)
              (deref_bind-Triple _ _ (λ k c.
                bind-Triple (take_action-Triple k h₀ podname)
                  (λ names. pure_post-Triple (created names) (λ h p. p))))
      ]

-- Where the handler answers with names, it has only listed and read, and written deployments that it
-- listed and read just before, with 0 replicas; and each of the names was read and so written,
-- whatever the server answered to the write.
pub handle_action-created :
    {RestConfig Receivers : Type 0} (lib : ClientGo RestConfig Kube Receivers)
    (kubeconfig podname : Text) (h h' : History) (names : List Text)
    → handle_action lib kubeconfig podname h ≡ (next (created names), h')
    → Since Quarantines h h' × All (WasQuarantined h') names
handle_action-created lib kubeconfig podname h h' names e =
    subst (λ (o : Out Answer Answer × History). Since Quarantines h o.1 × After IsTrue o.0 o.1) e
      (Triple.run (handle_action-Triple lib h kubeconfig podname) h begun tt)
