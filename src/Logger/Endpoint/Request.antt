-- ===== src/Logger/Endpoint/Request.antt =====
-- The handler `takeAction` of `logger/endpoint/endpoint.go` as a whole: the client in front, and the
-- answer behind.
pub mod Answers
use kubernetes_cluster_monit.Clients.{ClientGo, get_kubernetes_client}
use kubernetes_cluster_monit.Kube.{Event, Kube}
use kubernetes_cluster_monit.Logger.Endpoint.Action.{Answer, unwritten, created, take_action}
use kubernetes_cluster_monit.Prelude.{none, some}
use kubernetes_cluster_monit.Prelude.Program.{Prog, pure, exit, ◌>>=◌, deref}
use kubernetes_cluster_monit.Prelude.Text.{Text}

-- `podname` is the value in the form, the empty text where there is none; an error of `ParseForm` is
-- only logged.
unfoldable pub handle_action :
    {RestConfig Receivers : Type 0}
    → ClientGo RestConfig Kube Receivers
    → (kubeconfig podname : Text) → Prog Event Answer Answer
unfolding get_kubernetes_client take_action
handle_action lib kubeconfig podname =
    let client = get_kubernetes_client lib kubeconfig in
    elim client.error [
      | some err ↦ exit unwritten
      | none ↦ (deref client.value >>= λ k. take_action k podname >>= λ resp. pure (created resp))
    ]
