-- ===== src/Tests/Fixtures.antt =====
-- A small cluster: one deployment with one pod, in the default namespace.

use kubernetes_cluster_monit.Kube.{Container, Pod, Deployment, Kube}
use kubernetes_cluster_monit.Prelude.{Option, none, some, [], ◌∷◌}
use kubernetes_cluster_monit.Prelude.Dict.{Dict}
use kubernetes_cluster_monit.Prelude.Int.{pos}
use kubernetes_cluster_monit.Prelude.Program.{Reply}
use kubernetes_cluster_monit.Prelude.Text.{Text, codes}
use kubernetes_cluster_monit.Receiver.{Receiver}

abbrev pub web : Text
web = codes "web"

abbrev pub web_labels : Dict
web_labels = (codes "app", web) ∷ []

abbrev pub web_container : Container
web_container = record { name = web; ports = pos 8080 ∷ []; spec = [] }

abbrev pub web_pod : Pod
web_pod = record {
  name = codes "web-1";
  namespace = codes "default";
  labels = web_labels;
  annotations = none;
  containers = web_container ∷ [];
  volumes = [];
  phase = codes "Running";
  pod_ip = codes "10.0.0.7";
}

abbrev pub policy_annotations : Dict
policy_annotations =
    (codes "sidecar-injector-webhook.rohit.in/inject", codes "true")
    ∷ (codes "GroupLabel", codes "app")
    ∷ (codes "Action", codes "quarantine")
    ∷ (codes "LogFrequency", codes "10")
    ∷ []

abbrev pub deployment_with : Option Dict → Deployment
deployment_with a = record {
  name = web;
  namespace = codes "default";
  labels = web_labels;
  annotations = a;
  selector = codes "app=web";
  replicas = some 2;
}

abbrev pub reply_of : {A : Type 0} → A → Reply A
reply_of a = record { value = a; error = none }

-- A server that knows the one deployment, and answers every request.
abbrev pub server : Option Dict → Kube
server a = record {
  deployments = λ h ns selector. reply_of (deployment_with a ∷ []);
  pods = λ h ns selector. reply_of (web_pod ∷ []);
  pod = λ h ns name. reply_of web_pod;
  deployment = λ h ns name. reply_of (deployment_with a);
  patch = λ h ns name patch. reply_of (deployment_with a);
  update = λ h ns d. reply_of d;
  delete = λ h ns name. none;
  as_selector = λ s. reply_of (some s);
  set_selector = λ m. [];
  marshal = λ d. reply_of d.name;
  marshal_indent = λ d. reply_of d.name;
  create_patch = λ old new. reply_of new;
  marshal_patch = λ p. reply_of p;
}

abbrev pub web_receiver : Receiver
web_receiver = record {
  name = codes "watch";
  namespace = codes "default";
  resource_version = codes "1";
  spec = record {
    namespace = [];
    label_selector = record { expression = []; labels = web_labels };
    group_label = codes "app" ∷ [];
    log_frequency = pos 0;
    action = codes "quarantine";
    destination = [];
  };
}
