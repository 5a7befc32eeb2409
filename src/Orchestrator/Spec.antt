-- ===== src/Orchestrator/Spec.antt =====
-- What handleProvisionEnvironment of internal/orchestrator/provision_job.go asks of the provider and
-- of the provisioner, and what it keeps of the provider's answer.
use painkiller.Prelude.{
  ℕ, zero, suc, Option, none, some, List, [], ◌∷◌, ◌++◌, map, Text, codes, is_empty, if◌then◌else◌,
}
use painkiller.Json.{Json, Items, obj, arr, str, field, end, nil, cons}
use painkiller.Provider.{
  VmRequest, VmResult, ClusterRequest, EnvironmentSpec, ClusterResult, EnvironmentResult, NodeSpec,
  ClusterSpec, EnvironmentProvisionSpec,
}
use painkiller.Scenarios.Schema.{Node, Cluster, Topology}
use painkiller.Proxy.{generate_iptables_script}

-- `text[:n]`, on a text that is long enough.
pub take : ℕ → Text → Text
take zero s = []
take (suc n) [] = []
take (suc n) (c ∷ s) = c ∷ take n s

abbrev node_request : Text → Text → Cluster → Node → VmRequest
node_request attempt public_key cluster node = record {
  hostname = cluster.id ++ (codes "-" ++ node.name);
  role = node.role;
  template = node.template;
  network = [];
  ssh_public_key = public_key;
  cloud_init_data = [];
  tags = (codes "attempt_id", attempt) ∷ (codes "cluster_id", cluster.id) ∷ [];
}

abbrev cluster_request : Text → Text → Cluster → ClusterRequest
cluster_request attempt public_key cluster = record {
  name = cluster.id;
  nodes = map (node_request attempt public_key cluster) cluster.nodes;
}

-- `envSpec`, from the texts of the attempt's and the environment's UUIDs.
unfoldable pub environment_spec : Text → Text → Text → Topology → EnvironmentSpec
unfolding take
environment_spec attempt environment public_key topology = record {
  workstation = record {
    hostname = codes "workstation-" ++ take 8 attempt;
    role = codes "workstation";
    template = codes "workstation";
    network = [];
    ssh_public_key = public_key;
    cloud_init_data = [];
    tags = (codes "attempt_id", attempt) ∷ (codes "environment_id", environment) ∷ [];
  };
  clusters = map (cluster_request attempt public_key) topology.clusters;
}

unfoldable pub vm_ids : List VmResult → Items → Items
vm_ids [] rest = rest
vm_ids (n ∷ ns) rest = cons (str n.provider_vm_id) (vm_ids ns rest)

unfoldable pub node_vm_ids : List ClusterResult → Items
unfolding vm_ids
node_vm_ids [] = nil
node_vm_ids (c ∷ cs) = vm_ids c.nodes (node_vm_ids cs)

-- `metadata`; the encoder sorts the keys of a map.
unfoldable pub metadata_of : EnvironmentResult → Json
unfolding node_vm_ids vm_ids
metadata_of result = obj (
    field (codes "node_vm_ids") (arr (node_vm_ids result.clusters))
      (field (codes "workstation_vm_id") (str result.workstation.provider_vm_id) end))

-- The role of a node is not set.
abbrev pub node_spec : VmResult → NodeSpec
node_spec n = record { hostname = n.hostname; ip = n.ip_address; role = [] }

abbrev pub cluster_spec : Cluster → ClusterResult → ClusterSpec
cluster_spec asked cluster = record {
  name = cluster.name;
  kube_context = asked.kube_context;
  nodes = map node_spec cluster.nodes;
}

abbrev pub cons_option : ClusterSpec → Option (List ClusterSpec) → Option (List ClusterSpec)
cons_option c none = none
cons_option c (some cs) = some (c ∷ cs)

-- The loop over `envResult.Clusters` with `topology.Clusters[i]`; `none` where the index is out of
-- range, which panics.
unfoldable pub cluster_specs : List Cluster → List ClusterResult → Option (List ClusterSpec)
cluster_specs asked [] = some []
cluster_specs [] (c ∷ cs) = none
cluster_specs (a ∷ asked) (c ∷ cs) = cons_option (cluster_spec a c) (cluster_specs asked cs)

abbrev cluster_cidrs : List Text
cluster_cidrs = codes "10.0.0.0/8" ∷ codes "172.16.0.0/12" ∷ codes "192.168.0.0/16" ∷ []

-- `o.proxyConfig != nil && o.proxyConfig.Addr != ""`
abbrev proxy_addr_of : Option Text → Text
proxy_addr_of none = []
proxy_addr_of (some addr) = addr

abbrev proxy_script_of : Option Text → Text
proxy_script_of none = []
proxy_script_of (some addr) =
    if is_empty addr then [] else generate_iptables_script addr cluster_cidrs

-- `provisionSpec`, with its clusters.
unfoldable pub provision_spec :
    Option Text → Text → Text → EnvironmentResult → List ClusterSpec → EnvironmentProvisionSpec
provision_spec proxy private_key external_id result clusters = record {
  workstation_ip = result.workstation.ip_address;
  ssh_private_key = private_key;
  clusters = clusters;
  playbook_path = codes "/app/scenarios/" ++ (external_id ++ codes "/provision/playbook.yaml");
  proxy_addr = proxy_addr_of proxy;
  proxy_ipt_script = proxy_script_of proxy;
}
