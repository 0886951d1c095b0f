-- ===== src/Kube/Steady.antt =====
-- An API server whose listings do not change, and whose deployments have a policy and select pods.
use kubernetes_cluster_monit.Keys.{annotation_key}
use kubernetes_cluster_monit.Kube.{Pod, Deployment, History, Kube}
use kubernetes_cluster_monit.Prelude.{◌≡◌, Bool, true, false, ◌&&◌, none, some, List, [], any}
use kubernetes_cluster_monit.Prelude.Dict.{lookup, entries}
use kubernetes_cluster_monit.Prelude.Text.{Text, text_eq}

-- A server that answers every listing without an error and always alike, and selectors that are well
-- formed.
pub record IsSteady (k : Kube) (ns : Text) (pods : Text → List Pod) (dps : List Deployment)
    (selector : Deployment → Text) : Type 0 where
  pub pods_are :
      (h : History) (sel : Text) → k.pods h ns sel ≡ record { value = pods sel; error = none }
  pub deployments_are : (h : History) → k.deployments h ns [] ≡ record { value = dps; error = none }
  pub selector_is : (dp : Deployment) → (k.as_selector dp.selector).value ≡ some (selector dp)

-- `_, ok := dp.Annotations[annotationKey]`
abbrev pub has_policy : Deployment → Bool
has_policy dp = elim (lookup annotation_key (entries dp.annotations)) [
  | none ↦ false
  | some v ↦ true
]

-- A pod of that name is among those that the deployment selects, and the deployment has a policy.
abbrev pub covers : (Text → List Pod) → (Deployment → Text) → Text → Deployment → Bool
covers pods selector name dp = has_policy dp && any (λ q. text_eq q.name name) (pods (selector dp))
