-- ===== src/Sidecar/Start/Main.antt =====
-- The sidecar's `main`, from the client to the addresses.
use kubernetes_cluster_monit.Kube.{Kube}
use kubernetes_cluster_monit.Prelude.Dict.{Dict}
use kubernetes_cluster_monit.Prelude.Text.{Text}
