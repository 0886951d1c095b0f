-- ===== src/Receiver.antt =====
-- The custom resource: `CustomResource/src/pkg/apis/myproject/v1alpha1/types.go`, with the metadata
-- that the controller reads.
pub mod Copies
use kubernetes_cluster_monit.Prelude.{List}
use kubernetes_cluster_monit.Prelude.Int.{ℤ}
use kubernetes_cluster_monit.Prelude.Text.{Text}
use kubernetes_cluster_monit.Prelude.Dict.{Dict}

pub record Dest : Type 0 where
  pub ip_address : Text
  pub port : Text
  pub endpoint : Text

pub record ExpressionStruct : Type 0 where
  pub key : Text
  pub operator : Text
  pub values : List Text

pub record PodSelector : Type 0 where
  pub expression : List ExpressionStruct
  pub labels : Dict

pub record ReceiverSpec : Type 0 where
  pub namespace : List Text
  pub label_selector : PodSelector
  pub group_label : List Text
  pub log_frequency : ℤ
  pub action : Text
  pub destination : List Dest

pub record Receiver : Type 0 where
  pub name : Text
  pub namespace : Text
  pub resource_version : Text
  pub spec : ReceiverSpec
