-- ===== src/Sidecar/Log.antt =====
-- The log of `sidecar/sidecar.go`: what `addLogData` hands to logrus. Its text formatter, for an output
-- that is no terminal, is a parameter.
use kubernetes_cluster_monit.Prelude.{Bool, [], ◌∷◌}
use kubernetes_cluster_monit.Prelude.Dict.{Dict}
use kubernetes_cluster_monit.Prelude.Number.{itoa_nat}
use kubernetes_cluster_monit.Prelude.Text.{Text, codes}
use kubernetes_cluster_monit.Sidecar.Health.{LogStruct}

-- `log.Fields`; the map is listed in the order of its keys.
unfoldable pub log_fields : LogStruct → Dict
log_fields l =
    (codes "container", l.container_name)
    ∷ (codes "pod", l.pod_name)
    ∷ (codes "request", l.request)
    ∷ (codes "statusMsg", l.status)
    ∷ (codes "statuscode", itoa_nat l.status_code)
    ∷ (codes "type", codes "liveness-check")
    ∷ (codes "url", l.url)
    ∷ []

abbrev pub log_message : Text
log_message = codes "Liveness check performed"

-- `TextFormatter`: which values it quotes, and the line of an entry of level info.
pub record Formatter : Type 0 where
  pub needs_quotes : Text → Bool
  pub write : (time : Text) (data_fields : Dict) (message : Text) → Text

-- `log.WithFields(…).Info("Liveness check performed")` at a time.
abbrev pub logged_line : Formatter → Text → LogStruct → Text
logged_line f time l = f.write time (log_fields l) log_message
