-- ===== src/Sidecar/Start.antt =====
-- `main` of `sidecar/sidecar.go` up to the addresses: the sidecar waits until its pod runs and has an
-- IP address. The loops are on fuel, and a pause takes no step.
pub mod Settles
pub mod Main
use kubernetes_cluster_monit.Clients.{ClientGo, get_kubernetes_client}
use kubernetes_cluster_monit.Keys.{action_key}
use kubernetes_cluster_monit.Kube.{Pod, Event, Kube, list_pods, get_pod}
use kubernetes_cluster_monit.Prelude.{ℕ, zero, suc, Bool, none, some, List, [], ◌∷◌, if◌then◌else◌}
use kubernetes_cluster_monit.Prelude.Dict.{Dict, get}
use kubernetes_cluster_monit.Prelude.Program.{Prog, pure, exit, ◌>>=◌, ◌>>◌, check, deref}
use kubernetes_cluster_monit.Prelude.Text.{Text, codes, text_eq}
use kubernetes_cluster_monit.Sidecar.Environment.{set_environment}
use kubernetes_cluster_monit.Sidecar.Health.{PodInfo, pod_infos}

-- How `main` goes on: it returned, it still waits when the fuel is gone, or it has the addresses, and
-- the environment of the process.
pub data Start : Type 0 where
  stopped : Start
  waiting : Start
  ready : List PodInfo → Dict → Start

-- The namespace of the first pod with the host's name; the empty text without one.
unfoldable pub namespace_of : Text → List Pod → Text
namespace_of hostname [] = []
namespace_of hostname (p ∷ ps) =
    if text_eq p.name hostname then p.namespace else namespace_of hostname ps

abbrev pub is_running : Pod → Bool
is_running pod = text_eq pod.phase (codes "Running")

module _ (k : Kube) (ns hostname : Text) where
  -- `for podIP == ""`; an error of the call is only logged.
  unfoldable pub wait_for_ip : (fuel : ℕ) → Pod → Prog Event Start Pod
  wait_for_ip zero pod = if text_eq pod.pod_ip [] then exit waiting else pure pod
  wait_for_ip (suc fuel) pod =
      if text_eq pod.pod_ip []
      then (get_pod k ns hostname >>= λ reply. wait_for_ip fuel reply.value)
      else pure pod

  -- `if os.Getenv("Action") == ""`
  unfoldable pub ensure_environment : Pod → Dict → Prog Event Start Dict
  unfolding set_environment
  ensure_environment pod env =
      if text_eq (get action_key env) [] then set_environment k pod env else pure env

  -- The branch for a running pod, which ends the loop.
  unfoldable pub gather : (fuel : ℕ) → Pod → Dict → Prog Event Start Start
  unfolding ensure_environment wait_for_ip pod_infos
  gather fuel pod env = do
    env' ← ensure_environment pod env
    pod' ← wait_for_ip fuel pod
    pure (ready (pod_infos pod'.pod_ip pod'.name pod'.containers) env')

  -- The loop; the second call of the other branch is made, and its answer not used.
  unfoldable pub settle : (fuel : ℕ) → Dict → Prog Event Start Start
  unfolding gather
  settle zero env = pure waiting
  settle (suc fuel) env = get_pod k ns hostname >>= λ reply.
      if is_running reply.value
      then gather fuel reply.value env
      else (get_pod k ns hostname >>= λ again. settle fuel env)

-- `main` with a client, from the host's name and the environment of the process on.
unfoldable pub start : Kube → (fuel : ℕ) → (hostname : Text) → Dict → Prog Event Start Start
unfolding settle namespace_of
start k fuel hostname env = do
  reply ← list_pods k [] []
  pods ← check reply stopped
  settle k (namespace_of hostname pods) hostname fuel env

-- `main` up to the addresses.
unfoldable pub sidecar_main :
    {RestConfig Receivers : Type 0}
    → ClientGo RestConfig Kube Receivers
    → (kubeconfig : Text) (fuel : ℕ) (hostname : Text) → Dict
    → Prog Event Start Start
unfolding get_kubernetes_client start
sidecar_main lib kubeconfig fuel hostname env =
    let client = get_kubernetes_client lib kubeconfig in
    elim client.error [
      | some err ↦ exit stopped
      | none ↦ (deref client.value >>= λ k. start k fuel hostname env)
    ]
