-- ===== src/Keys.antt =====
-- The annotation keys and values by which the components agree: `CustomResource/handler.go`,
-- `webhook/webhook.go`, `sidecar/sidecar.go` and `logger/collector/collector.go` declare them alike.
use kubernetes_cluster_monit.Prelude.{◌≡◌, refl, false}
use kubernetes_cluster_monit.Prelude.Text.{Text, codes, text_eq}

-- `annotationKey`, `admissionWebhookAnnotationInjectKey`
unfoldable pub annotation_key : Text
annotation_key = codes "sidecar-injector-webhook.rohit.in/inject"

-- `annotationValue`
unfoldable pub annotation_value : Text
annotation_value = codes "true"

-- `injectedStatusKey`, `admissionWebhookAnnotationStatusKey`
unfoldable pub injected_status_key : Text
injected_status_key = codes "sidecar-injector-webhook.rohit.in/status"

-- `injectedStatusValue`
unfoldable pub injected_status_value : Text
injected_status_value = codes "injected"

unfoldable pub group_label_key : Text
group_label_key = codes "GroupLabel"

unfoldable pub action_key : Text
action_key = codes "Action"

unfoldable pub log_frequency_key : Text
log_frequency_key = codes "LogFrequency"

abbrev Differ : Text → Text → Type 0
Differ a b = text_eq a b ≡ false

-- The five keys that the controller writes or deletes are different.
pub keys-Differ :
    Differ annotation_key group_label_key
    × Differ annotation_key action_key
    × Differ annotation_key log_frequency_key
    × Differ annotation_key injected_status_key
    × Differ group_label_key action_key
    × Differ group_label_key log_frequency_key
    × Differ group_label_key injected_status_key
    × Differ action_key log_frequency_key
    × Differ action_key injected_status_key
    × Differ log_frequency_key injected_status_key
unfolding annotation_key group_label_key action_key log_frequency_key injected_status_key text_eq
keys-Differ = (refl, refl, refl, refl, refl, refl, refl, refl, refl, refl)
