-- ===== src/Kube.antt =====
-- The Kubernetes objects that the components read and write, with the fields that they use, and the
-- API server as seen through the typed client of client-go. The server is a parameter: each of its
-- answers is a function of all calls made before, so that nothing is assumed about what else goes on
-- in the cluster. The typed client returns a list or an object that is not nil also with an error.
pub mod Steady
pub mod Cluster
use kubernetes_cluster_monit.Prelude.{List, Option, ℕ}
use kubernetes_cluster_monit.Prelude.Int.{ℤ}
use kubernetes_cluster_monit.Prelude.Text.{Text}
use kubernetes_cluster_monit.Prelude.Dict.{Dict}
use kubernetes_cluster_monit.Prelude.Program.{Reply, Prog, call}

pub record Container : Type 0 where
  pub name : Text
  pub ports : List ℤ  -- each `ContainerPort`
  pub spec : Text  -- the other fields, encoded

pub record Volume : Type 0 where
  pub name : Text
  pub source : Text

pub record Pod : Type 0 where
  pub name : Text
  pub namespace : Text
  pub labels : Dict
  pub annotations : Option Dict
  pub containers : List Container
  pub volumes : List Volume
  pub phase : Text
  pub pod_ip : Text

pub record Deployment : Type 0 where
  pub name : Text
  pub namespace : Text
  pub labels : Dict
  pub annotations : Option Dict
  pub selector : Text  -- `Spec.Selector`, encoded
  pub replicas : Option ℕ  -- `Spec.Replicas`, which may be a nil pointer

pub data Event : Type 0 where
  listed_deployments : (ns selector : Text) → Reply (List Deployment) → Event
  listed_pods : (ns selector : Text) → Reply (List Pod) → Event
  got_pod : (ns name : Text) → Reply Pod → Event
  got_deployment : (ns name : Text) → Reply Deployment → Event
  patched_deployment : (ns name patch : Text) → Reply Deployment → Event
  updated_deployment : (ns : Text) → Deployment → Reply Deployment → Event
  deleted_pod : (ns name : Text) → Option Text → Event

abbrev pub History : Type 0
History = List Event

-- The server, and the library functions that work on encoded objects: label selectors, JSON, patches.
pub record Kube : Type 0 where
  pub deployments : History → (ns selector : Text) → Reply (List Deployment)
  pub pods : History → (ns selector : Text) → Reply (List Pod)
  pub pod : History → (ns name : Text) → Reply Pod
  pub deployment : History → (ns name : Text) → Reply Deployment
  pub patch : History → (ns name patch : Text) → Reply Deployment
  pub update : History → (ns : Text) → Deployment → Reply Deployment
  pub delete : History → (ns name : Text) → Option Text
  -- `metav1.LabelSelectorAsSelector` and `String`; the selector is a nil interface with an error
  pub as_selector : Text → Reply (Option Text)
  -- `labels.Set(l).AsSelector().String()`
  pub set_selector : Dict → Text
  pub marshal : Deployment → Reply Text
  pub marshal_indent : Deployment → Reply Text
  pub create_patch : Text → Text → Reply Text
  pub marshal_patch : Text → Reply Text

module _ (k : Kube) {R : Type 0} where
  abbrev pub list_deployments : Text → Text → Prog Event R (Reply (List Deployment))
  list_deployments ns sel = call (λ h. k.deployments h ns sel) (listed_deployments ns sel)

  abbrev pub list_pods : Text → Text → Prog Event R (Reply (List Pod))
  list_pods ns sel = call (λ h. k.pods h ns sel) (listed_pods ns sel)

  abbrev pub get_pod : Text → Text → Prog Event R (Reply Pod)
  get_pod ns name = call (λ h. k.pod h ns name) (got_pod ns name)

  abbrev pub get_deployment : Text → Text → Prog Event R (Reply Deployment)
  get_deployment ns name = call (λ h. k.deployment h ns name) (got_deployment ns name)

  abbrev pub patch_deployment : Text → Text → Text → Prog Event R (Reply Deployment)
  patch_deployment ns name p = call (λ h. k.patch h ns name p) (patched_deployment ns name p)

  abbrev pub update_deployment : Text → Deployment → Prog Event R (Reply Deployment)
  update_deployment ns d = call (λ h. k.update h ns d) (updated_deployment ns d)

  abbrev pub delete_pod : Text → Text → Prog Event R (Option Text)
  delete_pod ns name = call (λ h. k.delete h ns name) (deleted_pod ns name)
