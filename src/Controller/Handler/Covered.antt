-- ===== src/Controller/Handler/Covered.antt =====
-- What has been done about a policy: of a pod, a deployment and a namespace.
use kubernetes_cluster_monit.Controller.Handler.{is_injected}
use kubernetes_cluster_monit.Controller.Handler.Allowed.{patch_bytes}
use kubernetes_cluster_monit.Controller.Policy.{Policy, annotate}
use kubernetes_cluster_monit.Kube.{
  Pod, Deployment, listed_deployments, listed_pods, patched_deployment, deleted_pod, History, Kube,
}
use kubernetes_cluster_monit.Prelude.{
  ◌≡◌, ◌⊎◌, inl, inr, true, Option, none, some, List, Memᴰ, All, All-map,
}
use kubernetes_cluster_monit.Prelude.Dict.{Dict}
use kubernetes_cluster_monit.Prelude.Program.{Reply, Mem-Extends, IsStable}
use kubernetes_cluster_monit.Prelude.Text.{Text}

-- An API server that refuses no request of the handler, and libraries that encode every object and
-- read every selector. An error of a pod listing is only logged, so it is left open.
pub record IsObliging (k : Kube) : Type 0 where
  pub lists : (h : History) (ns sel : Text) → (k.deployments h ns sel).error ≡ none
  pub patches : (h : History) (ns name p : Text) → (k.patch h ns name p).error ≡ none
  pub deletes : (h : History) (ns name : Text) → k.delete h ns name ≡ none
  pub selects : (s : Text) → (t : Text) × ((k.as_selector s).value ≡ some t)
  pub marshals : (d : Deployment) → (k.marshal d).error ≡ none
  pub shows : (d : Deployment) → (k.marshal_indent d).error ≡ none
  pub compares : (a b : Text) → (k.create_patch a b).error ≡ none
  pub encodes : (p : Text) → (k.marshal_patch p).error ≡ none

-- The pod has the sidecar already, or it was deleted.
abbrev pub IsRenewed : Kube → Text → Pod → History → Type 0
IsRenewed k ns pod h =
    (is_injected k pod ≡ true) ⊎ ((err : Option Text) × Memᴰ (deleted_pod ns pod.name err) h)

-- The pods that the deployment selects were listed, and each of them renewed.
pub record AreRenewed (k : Kube) (ns : Text) (dp : Deployment) (h : History) : Type 0 where
  pub selector : Text
  pub reply : Reply (List Pod)
  pub selector_is : (k.as_selector dp.selector).value ≡ some selector
  pub seen : Memᴰ (listed_pods ns selector reply) h
  pub renewed : All (λ pod. IsRenewed k ns pod h) reply.value

-- The deployment had the policy's annotation, or it was patched to have the policy and its pods were
-- renewed.
abbrev pub IsCovered : Kube → Policy → Text → Deployment → History → Type 0
IsCovered k p ns dp h =
    (annotate p dp.annotations ≡ none)
    ⊎ ((m : Dict) × (annotate p dp.annotations ≡ some m)
        × ((reply : Reply Deployment) × Memᴰ
              (patched_deployment ns dp.name (patch_bytes k dp m) reply) h)
        × AreRenewed k ns dp h)

-- The namespace was listed by the policy's selector, and every deployment of the listing covered.
pub record IsVisited (k : Kube) (p : Policy) (expression ns : Text) (h : History) : Type 0 where
  pub reply : Reply (List Deployment)
  pub seen : Memᴰ (listed_deployments ns expression reply) h
  pub covered : All (λ dp. IsCovered k p ns dp h) reply.value

pub IsRenewed-IsStable : (k : Kube) (ns : Text) (pod : Pod) → IsStable (IsRenewed k ns pod)
IsRenewed-IsStable k ns pod h h' g (inl i) = inl i
IsRenewed-IsStable k ns pod h h' g (inr (err, m)) = inr (err, Mem-Extends g m)

pub AreRenewed-IsStable : (k : Kube) (ns : Text) (dp : Deployment) → IsStable (AreRenewed k ns dp)
AreRenewed-IsStable k ns dp h h' g r = record {
  selector = r.selector;
  reply = r.reply;
  selector_is = r.selector_is;
  seen = Mem-Extends g r.seen;
  renewed = All-map _ _ r.reply.value (λ pod. IsRenewed-IsStable k ns pod h h' g) r.renewed;
}

pub IsCovered-IsStable :
    (k : Kube) (p : Policy) (ns : Text) (dp : Deployment) → IsStable (IsCovered k p ns dp)
IsCovered-IsStable k p ns dp h h' g (inl n) = inl n
IsCovered-IsStable k p ns dp h h' g (inr (m, e, (reply, patched), r)) =
    inr (m, e, (reply, Mem-Extends g patched), AreRenewed-IsStable k ns dp h h' g r)

pub IsVisited-IsStable :
    (k : Kube) (p : Policy) (expression ns : Text) → IsStable (IsVisited k p expression ns)
IsVisited-IsStable k p expression ns h h' g v = record {
  reply = v.reply;
  seen = Mem-Extends g v.seen;
  covered = All-map _ _ v.reply.value (λ dp. IsCovered-IsStable k p ns dp h h' g) v.covered;
}
