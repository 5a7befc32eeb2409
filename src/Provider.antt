-- ===== src/Provider.antt =====
-- internal/provider/types.go and internal/provisioner/types.go: what the orchestrator asks of the
-- virtualisation and provisioning back ends, and what it hears back.
pub mod Mock
use painkiller.Prelude.{Text, List}

pub record VmRequest : Type 0 where
  pub hostname : Text
  pub role : Text
  pub template : Text
  pub network : Text
  pub ssh_public_key : Text
  pub cloud_init_data : List (Text × Text)
  pub tags : List (Text × Text)

pub record VmResult : Type 0 where
  pub provider_vm_id : Text
  pub ip_address : Text
  pub hostname : Text

pub record ClusterRequest : Type 0 where
  pub name : Text
  pub nodes : List VmRequest

pub record EnvironmentSpec : Type 0 where
  pub workstation : VmRequest
  pub clusters : List ClusterRequest

pub record ClusterResult : Type 0 where
  pub name : Text
  pub nodes : List VmResult

pub record EnvironmentResult : Type 0 where
  pub workstation : VmResult
  pub clusters : List ClusterResult

pub record NodeSpec : Type 0 where
  pub hostname : Text
  pub ip : Text
  pub role : Text

pub record ClusterSpec : Type 0 where
  pub name : Text
  pub kube_context : Text
  pub nodes : List NodeSpec

pub record EnvironmentProvisionSpec : Type 0 where
  pub workstation_ip : Text
  pub ssh_private_key : Text
  pub clusters : List ClusterSpec
  pub playbook_path : Text
  pub proxy_addr : Text
  pub proxy_ipt_script : Text
