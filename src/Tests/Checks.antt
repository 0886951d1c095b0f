-- ===== src/Tests/Checks.antt =====
-- The theorem on the lines of health checks, for one check and a simple formatter.
use kubernetes_cluster_monit.Logger.Collector.Checks.{line_of, IsTextFormat, IsReadable}
use kubernetes_cluster_monit.Prelude.{refl, Bool, not, ◌&&◌, ◌∷◌, map, arith}
use kubernetes_cluster_monit.Prelude.Dict.{Dict}
use kubernetes_cluster_monit.Prelude.Text.{Text, codes, text_eq, has_no}
use kubernetes_cluster_monit.Sidecar.Health.{LogStruct}
use kubernetes_cluster_monit.Sidecar.Log.{Formatter}
use kubernetes_cluster_monit.Tests.Fixtures.{web}

abbrev simple_quotes : Text → Bool
simple_quotes v = not (has_no b' ' v && has_no b'=' v)

-- It quotes what the collector could not read otherwise.
abbrev simple_write : Text → Dict → Text → Text
simple_write time m message = line_of (
    map (λ kv. record { quotes = simple_quotes kv.1; key = kv.0; value = kv.1 })
      ((codes "time", time) ∷ (codes "level", codes "info") ∷ (codes "msg", message) ∷ m))

abbrev simple_formatter : Formatter
simple_formatter = record { needs_quotes = simple_quotes; write = simple_write }

pub simple_formatter-IsTextFormat : IsTextFormat simple_formatter
simple_formatter-IsTextFormat = record {
  writes = λ time m message s p. refl;
  safe_unquoted = λ v e. (ground arith, ground arith);
}

abbrev one_check : LogStruct
one_check = record {
  request = codes "GET";
  status_code = 200;
  status = codes "OK";
  container_name = web;
  pod_name = codes "web-1";
  url = codes "http://10.0.0.7:8080";
}

one_check-IsReadable : IsReadable (codes "2020-07-01T10:00:00Z") one_check
unfolding text_eq
one_check-IsReadable = record {
  time_is = refl;
  container_is = refl;
  pod_is = refl;
  request_is = refl;
  status_is = refl;
  url_is = refl;
  has_url = refl;
}
