-- ===== src/Controller/Handler/Allowed.antt =====
-- Which calls of the API server a handler may make, each judged by the calls before it.
use kubernetes_cluster_monit.Controller.Handler.{
  is_injected, restart, restart_missing, restart_injected,
}
use kubernetes_cluster_monit.Kube.{
  Pod, Deployment, Event, listed_deployments, listed_pods, patched_deployment, deleted_pod, History,
  Kube,
}
use kubernetes_cluster_monit.Prelude.{
  ◌≡◌, inl, inr, Bool, true, false, Option, some, List, ◌∷◌, Memᴰ, Bool-cases,
}
use kubernetes_cluster_monit.Prelude.Dict.{Dict}
use kubernetes_cluster_monit.Prelude.Program.{
  Prog, Reply, Triple, pure-Triple, return_on_error-Triple, call-Triple, bind-Triple,
}
use kubernetes_cluster_monit.Prelude.Text.{Text}

-- Bytes made of a deployment and its changed copy as `json` and `jsonpatch` make them.
abbrev pub patch_bytes : Kube → Deployment → Dict → Text
patch_bytes k dp m =
    (k.marshal_patch
      (k.create_patch (k.marshal dp).value
        (k.marshal (record dp { annotations = some m })).value).value).value

-- A call is a patch of a deployment that a listing before it named, in that namespace, whose
-- annotations the handler changes by `change`, and it sends the patch that leads to them.
pub record IsPatchBy (k : Kube) (change : Option Dict → Option Dict) (ns name patch : Text)
    (h : History) : Type 0 where
  pub selector : Text
  pub reply : Reply (List Deployment)
  pub dp : Deployment
  pub written : Dict
  pub seen : Memᴰ (listed_deployments ns selector reply) h
  pub listed : Memᴰ dp reply.value
  pub named : name ≡ dp.name
  pub changed : change dp.annotations ≡ some written
  pub sent : patch ≡ patch_bytes k dp written

-- A call is the deletion of a pod that a listing before it named, in that namespace, and that has the
-- sidecar or has it not.
pub record IsRestart (injected : Bool) (k : Kube) (ns name : Text) (h : History) : Type 0 where
  pub selector : Text
  pub reply : Reply (List Pod)
  pub pod : Pod
  pub seen : Memᴰ (listed_pods ns selector reply) h
  pub listed : Memᴰ pod reply.value
  pub named : name ≡ pod.name
  pub state : is_injected k pod ≡ injected

-- What a handler may do: read lists, patch by `change`, and delete pods in the state `injected`.
abbrev pub Allowed : Kube → (Option Dict → Option Dict) → Bool → History → Event → Type 0
Allowed k change injected h (listed_deployments ns selector reply) = Unit
Allowed k change injected h (listed_pods ns selector reply) = Unit
Allowed k change injected h (patched_deployment ns name patch reply) =
    IsPatchBy k change ns name patch h
Allowed k change injected h (deleted_pod ns name error) = IsRestart injected k ns name h
Allowed k change injected h _ = ⊥

-- A loop body that deletes the pods in one state of the injection, and does nothing else.
abbrev pub DeletesOnly : Kube → Bool → (Text → Pod → Prog Event (Unit {0}) (Unit {0})) → Type 1
DeletesOnly k injected each =
    (I P : History → Type 0) (ns : Text) (pod : Pod)
    → ((h : History) (err : Option Text)
        → is_injected k pod ≡ injected
        → I h
        → P h
        → I (deleted_pod ns pod.name err ∷ h) × P (deleted_pod ns pod.name err ∷ h))
    → Triple I P (each ns pod) (λ _. P)

restart-Triple :
    (k : Kube) (I P : History → Type 0) (ns : Text) (pod : Pod)
    → ((h : History) (err : Option Text)
        → I h
        → P h
        → I (deleted_pod ns pod.name err ∷ h) × P (deleted_pod ns pod.name err ∷ h))
    → Triple I P (restart k ns pod) (λ _. P)
restart-Triple k I P ns pod keep =
    bind-Triple
      (call-Triple (λ h. k.delete h ns pod.name) (deleted_pod ns pod.name) (λ h. keep h _))
      (λ err. return_on_error-Triple err tt)

pub restart_missing-DeletesOnly : (k : Kube) → DeletesOnly k false (restart_missing k)
unfolding restart_missing
restart_missing-DeletesOnly k I P ns pod keep = elim (Bool-cases (is_injected k pod)) [
  | inl e ↦ rw e (pure-Triple tt)
  | inr e ↦ rw e (restart-Triple k I P ns pod (λ h err. keep h err e))
]

pub restart_injected-DeletesOnly : (k : Kube) → DeletesOnly k true (restart_injected k)
unfolding restart_injected
restart_injected-DeletesOnly k I P ns pod keep = elim (Bool-cases (is_injected k pod)) [
  | inl e ↦ rw e (restart-Triple k I P ns pod (λ h err. keep h err e))
  | inr e ↦ rw e (pure-Triple tt)
]
