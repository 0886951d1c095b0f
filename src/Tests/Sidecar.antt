-- ===== src/Tests/Sidecar.antt =====
-- The sidecar's theorems on the small cluster.
use kubernetes_cluster_monit.Clients.{ClientGo}
use kubernetes_cluster_monit.Kube.{Kube}
use kubernetes_cluster_monit.Prelude.{ℕ, ◌↔◌, some, [], ◌∷◌, Memᴰ}
use kubernetes_cluster_monit.Prelude.Int.{pos}
use kubernetes_cluster_monit.Prelude.Number.{itoa}
use kubernetes_cluster_monit.Prelude.Program.{Reply}
use kubernetes_cluster_monit.Prelude.Text.{Text, codes}
use kubernetes_cluster_monit.Sidecar.Health.{PodInfo, pod_infos}
use kubernetes_cluster_monit.Sidecar.Health.Addresses.{IsAddress, Mem-pod_infos_iff}
use kubernetes_cluster_monit.Tests.Fixtures.{
  web, web_container, policy_annotations, reply_of, server,
}

abbrev address : Text
address = codes "10.0.0.7"

Mem-pod_infos_iff_example :
    Memᴰ
      (record { pod_name = web; container_name = web; port = itoa (pos 8080); ip = address })
      (pod_infos address web (web_container ∷ []))
    ↔ IsAddress address web
        (web_container ∷ [])
        (record { pod_name = web; container_name = web; port = itoa (pos 8080); ip = address })
Mem-pod_infos_iff_example = Mem-pod_infos_iff address web (web_container ∷ []) _

abbrev sidecar_library : ClientGo Text Kube Text
sidecar_library = record {
  build_config_from_flags = λ path. reply_of path;
  in_cluster_config = reply_of [];
  new_for_config = λ config. reply_of (server (some policy_annotations));
  new_receivers_for_config = λ config. reply_of [];
}

abbrev info_of : Text → PodInfo
info_of c = record { pod_name = web; container_name = c; port = codes "80"; ip = address }

abbrev always_ok : ℕ → Text → Reply ℕ
always_ok n u = reply_of 200

abbrev ok_text : ℕ → Text
ok_text n = codes "OK"
