-- ===== src/Tests/AnalysisTool.antt =====
-- The analysis server's theorem on a short file.
use kubernetes_cluster_monit.AnalysisTool.{receive_logs}
use kubernetes_cluster_monit.AnalysisTool.Overwrite.{receive_logs_iff}
use kubernetes_cluster_monit.Logger.Entry.{LogInfo, blank}
use kubernetes_cluster_monit.Prelude.{◌≤◌, ◌≡◌, refl, ◌↔◌, none, List, [], ◌∷◌, map}
use kubernetes_cluster_monit.Prelude.Program.{Reply}
use kubernetes_cluster_monit.Prelude.Text.{Text, codes}
use kubernetes_cluster_monit.Tests.Fixtures.{reply_of}

abbrev decode_one : Text → Reply (List LogInfo)
decode_one t = reply_of (blank ∷ [])

abbrev one_line : List (List Text) → Text
one_line records = map (λ r. b'x') records

receive_logs_iff_example :
    ((receive_logs decode_one one_line (reply_of (codes "[{}]")) none (codes "old")).file
      ≡ codes "x")
    ↔ (3 ≤ 1)
receive_logs_iff_example =
    receive_logs_iff decode_one one_line (codes "[{}]") (codes "old") (blank ∷ []) refl
