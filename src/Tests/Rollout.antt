-- ===== src/Tests/Rollout.antt =====
-- The theorems on a deployment that the controller gave a policy.
use kubernetes_cluster_monit.Controller.Policy.{policy, write_policy, annotate}
use kubernetes_cluster_monit.Keys.{
  annotation_key, injected_status_value, group_label_key, action_key, log_frequency_key,
}
use kubernetes_cluster_monit.Kube.{Deployment, Kube}
use kubernetes_cluster_monit.Kube.Steady.{IsSteady}
use kubernetes_cluster_monit.Prelude.{◌≡◌, refl, true, none, some, [], ◌∷◌, Memᴰ}
use kubernetes_cluster_monit.Prelude.Dict.{Dict, lookup, insert}
use kubernetes_cluster_monit.Prelude.Number.{atoi}
use kubernetes_cluster_monit.Prelude.Number.RoundTrip.{atoi-itoa}
use kubernetes_cluster_monit.Prelude.Program.{next, result}
use kubernetes_cluster_monit.Prelude.Text.{codes, text_eq, to_lower}
use kubernetes_cluster_monit.Rollout.Injection.{annotated, annotate-mutation_required}
use kubernetes_cluster_monit.Rollout.Settings.{HasSettings, annotate-set_environment}
use kubernetes_cluster_monit.Sidecar.Environment.{set_environment}
use kubernetes_cluster_monit.Tests.Fixtures.{web_pod, deployment_with, server, web_receiver}
use kubernetes_cluster_monit.Webhook.Mutation.{ignored_namespaces, has_status, mutation_required}

abbrev written : Dict
written = write_policy (policy web_receiver.spec) []

abbrev web_deployment : Deployment
web_deployment = deployment_with none

-- What `annotate` makes of it.
abbrev rolled_out : Kube
rolled_out = server (some written)

rolled_out-IsSteady :
    IsSteady rolled_out
      (codes "default")
      (λ s. web_pod ∷ [])
      (annotated web_deployment written ∷ [])
      (λ dp. dp.selector)
rolled_out-IsSteady = record {
  pods_are = λ h sel. refl;
  deployments_are = λ h. refl;
  selector_is = λ dp. refl;
}

annotate-mutation_required_example :
    result (mutation_required (some rolled_out) ignored_namespaces web_pod []).0 ≡ some true
unfolding annotate text_eq has_status to_lower lookup injected_status_value
annotate-mutation_required_example =
    annotate-mutation_required web_pod rolled_out-IsSteady ignored_namespaces []
      (policy web_receiver.spec) web_deployment written web_pod web_pod refl (Memᴰ.head refl)
      (Memᴰ.head refl) (Memᴰ.head refl) refl refl refl

annotate-set_environment_example :
    (env' : Dict) × ((set_environment rolled_out {R = Unit {0}} web_pod [] []).0 ≡ next env')
    × HasSettings web_receiver.spec atoi env'
unfolding annotate lookup write_policy insert text_eq annotation_key group_label_key action_key
    log_frequency_key
annotate-set_environment_example =
    annotate-set_environment {R = Unit {0}} web_pod rolled_out-IsSteady atoi web_receiver.spec
      web_deployment written [] [] atoi-itoa refl refl
