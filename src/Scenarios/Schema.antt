-- ===== src/Scenarios/Schema.antt =====
-- internal/scenarios/schema.go: what the YAML decoder fills in.
use painkiller.Prelude.{ℤ, Text, List}

pub record Node : Type 0 where
  pub name : Text
  pub role : Text
  pub template : Text

pub record Cluster : Type 0 where
  pub id : Text
  pub display_name : Text
  pub kube_context : Text
  pub nodes : List Node

pub record Topology : Type 0 where
  pub clusters : List Cluster

pub record Task : Type 0 where
  pub id : Text
  pub cluster_id : Text
  pub kube_context : Text
  pub points : ℤ
  pub prompt_file : Text

pub record Scenario : Type 0 where
  pub id : Text
  pub title : Text
  pub duration_minutes : ℤ
  pub access_window_hours : ℤ
  pub attempts_allowed : ℤ
  pub topology : Topology
  pub tasks : List Task

pub record Check : Type 0 where
  pub id : Text
  pub task_id : Text
  pub cluster_id : Text
  pub check_type : Text
  pub command : Text
  pub points : ℤ

pub record ChecksFile : Type 0 where
  pub checks : List Check
