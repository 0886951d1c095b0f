-- ===== src/Tests/Monitoring.antt =====
-- The theorems on the rounds of the sidecar, for two containers and two rounds.
use kubernetes_cluster_monit.Controller.Policy.{log_frequency_text}
use kubernetes_cluster_monit.Keys.{log_frequency_key}
use kubernetes_cluster_monit.Logger.Collector.Rounds.{add_lines}
use kubernetes_cluster_monit.Logger.Entry.{LogInfo}
use kubernetes_cluster_monit.Prelude.{ℕ, ◌<◌, ◌≡◌, refl, some, List, [], ◌∷◌, map, arith, All}
use kubernetes_cluster_monit.Prelude.Dict.{Dict, lookup}
use kubernetes_cluster_monit.Prelude.Int.{ℤ, pos, negsuc, nanoseconds}
use kubernetes_cluster_monit.Prelude.Number.{digits, itoa_nat, itoa, int_limit, atoi}
use kubernetes_cluster_monit.Prelude.Number.RoundTrip.{atoi-itoa, atoi-itoa_negsuc}
use kubernetes_cluster_monit.Prelude.Program.{Reply}
use kubernetes_cluster_monit.Prelude.Text.{Text, codes, text_eq}
use kubernetes_cluster_monit.Rollout.Monitoring.{repeated, IsNamed}
use kubernetes_cluster_monit.Rollout.Monitoring.ReadBack.{lines_of, add_lines-monitor}
use kubernetes_cluster_monit.Sidecar.Health.{PodInfo, url_of, sleep_duration}
use kubernetes_cluster_monit.Sidecar.Loop.{monitor}
use kubernetes_cluster_monit.Sidecar.Loop.Pauses.{
  asked_pause, magnitude, nanoseconds-log_frequency_text,
}
use kubernetes_cluster_monit.Sidecar.Start.{ready}
use kubernetes_cluster_monit.Tests.Checks.{simple_formatter-IsTextFormat}
use kubernetes_cluster_monit.Tests.Fixtures.{reply_of}

abbrev two_info : Text → PodInfo
two_info c = record {
  pod_name = codes "web-1";
  container_name = c;
  port = codes "80";
  ip = codes "10.0.0.7";
}

abbrev ok_fetch : ℕ → ℕ → Text → Reply ℕ
ok_fetch r n u = reply_of 200

abbrev ok_status : ℕ → Text
ok_status n = codes "OK"

abbrev noon : ℕ → Text
noon n = codes "2020-07-01T12:00:00Z"

add_lines-monitor_example :
    (entries : List LogInfo) × (add_lines
        (lines_of simple_formatter-IsTextFormat ok_status
          (λ n. refl)
          noon
          (λ n. refl)
          (monitor ok_status ok_fetch atoi 2
            (ready (two_info (codes "a") ∷ two_info (codes "b") ∷ []) [])))
        []
      ≡ some entries)
    × (map (λ (e : LogInfo). e.url) entries
        ≡ repeated 2 (map url_of (two_info (codes "a") ∷ two_info (codes "b") ∷ [])))
    × All (IsNamed (two_info (codes "b"))) entries
add_lines-monitor_example =
    add_lines-monitor simple_formatter-IsTextFormat ok_status (λ n. refl) noon (λ n. refl) ok_fetch
      (λ r n u. refl) atoi (two_info (codes "a") ∷ []) (two_info (codes "b")) [] 2
      (
        record { container_plain = refl; pod_plain = refl; address_plain = refl },
        (record { container_plain = refl; pod_plain = refl; address_plain = refl }, tt),
      )

atoi-reads : (v : ℤ) → magnitude v < int_limit → atoi (itoa v) ≡ some v
atoi-reads (pos n) l = atoi-itoa n l
atoi-reads (negsuc n) l = atoi-itoa_negsuc n (omega arith)

abbrev negative_env : Dict
negative_env = (codes "LogFrequency", codes "-5") ∷ []

-- A policy that asks for -5 seconds: the sidecar does not pause.
nanoseconds-log_frequency_text_example :
    nanoseconds (sleep_duration atoi negative_env) ≡ asked_pause (negsuc 4)
unfolding log_frequency_text itoa itoa_nat digits lookup text_eq log_frequency_key
nanoseconds-log_frequency_text_example =
    nanoseconds-log_frequency_text atoi negative_env (negsuc 4) atoi-reads refl (omega arith)

-- One second more than 9223372036 wraps to a negative pause.
nanoseconds_wraps : nanoseconds (pos 9223372037) ≡ negsuc 9223372036709551615
unfolding nanoseconds
nanoseconds_wraps = refl
