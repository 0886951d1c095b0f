-- ===== src/Sidecar/Health.antt =====
-- The addresses that `main` of `sidecar/sidecar.go` checks, and what it logs. The HTTP client and the
-- status texts are parameters.
pub mod Addresses
pub mod Shared
use kubernetes_cluster_monit.Keys.{log_frequency_key}
use kubernetes_cluster_monit.Kube.{Container}
use kubernetes_cluster_monit.Prelude.{
  ℕ, suc, ◌≡◌, ap, Option, none, some, List, [], ◌∷◌, ◌++◌, if◌then◌else◌,
}
use kubernetes_cluster_monit.Prelude.Dict.{Dict, get}
use kubernetes_cluster_monit.Prelude.Int.{ℤ, pos}
use kubernetes_cluster_monit.Prelude.Number.{itoa}
use kubernetes_cluster_monit.Prelude.Program.{Reply}
use kubernetes_cluster_monit.Prelude.Text.{Text, codes, text_eq}

-- `podInfo`
pub record PodInfo : Type 0 where
  pub pod_name : Text
  pub container_name : Text
  pub port : Text
  pub ip : Text

-- `logStruct`
pub record LogStruct : Type 0 where
  pub request : Text
  pub status_code : ℕ
  pub status : Text
  pub container_name : Text
  pub pod_name : Text
  pub url : Text

abbrev pub sidecar_name : Text
sidecar_name = codes "monitor-sidecar"

-- The loop over the ports of one container, with its `continue`.
unfoldable pub port_infos : Text → Text → Text → List ℤ → List PodInfo
port_infos ip pod_name container [] = []
port_infos ip pod_name container (p ∷ ports) =
    let rest = port_infos ip pod_name container ports in
    if text_eq container sidecar_name
    then rest
    else record { pod_name = pod_name; container_name = container; port = itoa p; ip = ip } ∷ rest

-- The loop over the containers: `pinfo`.
unfoldable pub pod_infos : Text → Text → List Container → List PodInfo
unfolding port_infos
pod_infos ip pod_name [] = []
pod_infos ip pod_name (c ∷ cs) = port_infos ip pod_name c.name c.ports ++ pod_infos ip pod_name cs

abbrev pub url_of : PodInfo → Text
url_of i = codes "http://" ++ (i.ip ++ b':' ∷ i.port)

-- `urls`: each has a pointer to the loop's one variable `data`, so the texts are kept with what that
-- variable holds in the end.
pub record Urls : Type 0 where
  pub texts : List Text
  pub variable : Option PodInfo

unfoldable pub urls_onto : Urls → List PodInfo → Urls
urls_onto us [] = us
urls_onto us (i ∷ infos) =
    urls_onto (record { texts = us.texts ++ url_of i ∷ []; variable = some i }) infos

unfoldable pub make_urls : List PodInfo → Urls
unfolding urls_onto
make_urls = urls_onto (record { texts = []; variable = none })

-- `addLogData`: the names are read through the pointer.
unfoldable pub add_log_data : (ℕ → Text) → PodInfo → Text → ℕ → LogStruct
add_log_data status_text pointed url code = record {
  request = codes "GET";
  status_code = code;
  status = status_text code;
  container_name = pointed.container_name;
  pod_name = pointed.pod_name;
  url = url;
}

module _ (status_text : ℕ → Text) (fetch : ℕ → Text → Reply ℕ) where
  -- The loop over the addresses, the `n`-th and on: what is logged with `liveness-check`. A failing
  -- request is logged without it.
  unfoldable pub check_from : ℕ → PodInfo → List Text → List LogStruct
  unfolding add_log_data
  check_from n pointed [] = []
  check_from n pointed (u ∷ us) = elim (fetch n u).error [
    | none ↦ add_log_data status_text pointed u (fetch n u).value ∷ check_from (suc n) pointed us
    | some err ↦ check_from (suc n) pointed us
  ]

  -- One round; with no addresses nothing points to the variable.
  unfoldable pub check_health : Urls → List LogStruct
  unfolding check_from
  check_health us = elim us.variable [ none ↦ [] | some pointed ↦ check_from 0 pointed us.texts ]

abbrev pub default_frequency : ℤ
default_frequency = pos 10

-- The pause between two rounds, from `LogFrequency`.
unfoldable pub sleep_duration : (parse_int : Text → Option ℤ) → Dict → ℤ
sleep_duration parse_int env = elim (parse_int (get (codes "LogFrequency") env)) [
  | none ↦ default_frequency
  | some v ↦ v
]

pub sleep_duration-some :
    (parse_int : Text → Option ℤ) (env : Dict) (v : ℤ)
    → parse_int (get log_frequency_key env) ≡ some v
    → sleep_duration parse_int env ≡ v
unfolding sleep_duration log_frequency_key
sleep_duration-some parse_int env v e =
    ap (λ (o : Option ℤ). elim o [ none ↦ pos 10 | some x ↦ x ]) e
