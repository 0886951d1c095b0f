-- ===== src/Sidecar/Loop.antt =====
-- The endless loop of `main` of `sidecar/sidecar.go`, cut off after a number of rounds.
pub mod Pauses
use kubernetes_cluster_monit.Prelude.{ℕ, zero, suc, Option, List, [], ◌∷◌, ◌++◌, map}
use kubernetes_cluster_monit.Prelude.Dict.{Dict}
use kubernetes_cluster_monit.Prelude.Int.{ℤ, nanoseconds}
use kubernetes_cluster_monit.Prelude.Program.{Reply}
use kubernetes_cluster_monit.Prelude.Text.{Text}
use kubernetes_cluster_monit.Sidecar.Health.{
  LogStruct, Urls, make_urls, check_health, sleep_duration,
}
use kubernetes_cluster_monit.Sidecar.Start.{Start, ready}

-- What the loop does: it logs a check, or pauses for a number of nanoseconds; a failing request is
-- logged in another way.
pub data Act : Type 0 where
  checked : LogStruct → Act
  paused : ℤ → Act

module _ (status_text : ℕ → Text) (fetch : ℕ → ℕ → Text → Reply ℕ)
    (parse_int : Text → Option ℤ) where
  -- The rounds from the `n`-th on; `fetch n` is how the requests of that round are answered.
  unfoldable pub rounds_from : (n rounds : ℕ) → Urls → Dict → List Act
  unfolding check_health sleep_duration nanoseconds
  rounds_from n zero us env = []
  rounds_from n (suc rounds) us env =
      map checked (check_health status_text (fetch n) us)
      ++ paused (nanoseconds (sleep_duration parse_int env)) ∷ rounds_from (suc n) rounds us env

  -- How `main` goes on from the addresses.
  unfoldable pub monitor : (rounds : ℕ) → Start → List Act
  unfolding rounds_from make_urls
  monitor rounds (ready infos env) = rounds_from 0 rounds (make_urls infos) env
  monitor rounds _ = []
