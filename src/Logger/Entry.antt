-- ===== src/Logger/Entry.antt =====
-- `loginfo`, which `logger/collector/collector.go`, `logger/endpoint/endpoint.go` and
-- `analysis_tool/server.go` declare alike.
use kubernetes_cluster_monit.Prelude.{[]}
use kubernetes_cluster_monit.Prelude.Text.{Text}

pub record LogInfo : Type 0 where
  pub time : Text
  pub level : Text
  pub msg : Text
  pub container : Text
  pub pod : Text
  pub request : Text
  pub status : Text
  pub status_code : Text
  pub msgtype : Text
  pub url : Text

-- `var newlog loginfo`
abbrev pub blank : LogInfo
blank = record {
  time = [];
  level = [];
  msg = [];
  container = [];
  pod = [];
  request = [];
  status = [];
  status_code = [];
  msgtype = [];
  url = [];
}
