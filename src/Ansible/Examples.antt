-- ===== src/Ansible/Examples.antt =====
-- The theorem on the inventory at work: one cluster of one node.
use painkiller.Prelude.{◌≡◌, map, refl, [], ◌∷◌, codes, All}
use painkiller.Scenarios.Schema.{Cluster}
use painkiller.Provider.{ClusterResult, EnvironmentProvisionSpec}
use painkiller.Orchestrator.Spec.{cluster_specs, cluster_spec}
use painkiller.Ansible.Inventory.{NoHosts, emptied, generate_inventory, inventory-NoHosts}

abbrev asked : Cluster
asked = record { id = codes "c"; kube_context = codes "c"; display_name = []; nodes = [] }

abbrev made : ClusterResult
made = record {
  name = codes "c";
  nodes =
      record { provider_vm_id = codes "1"; ip_address = codes "10.0.0.1"; hostname = codes "n" }
      ∷ [];
}

abbrev handed : EnvironmentProvisionSpec
handed = record {
  workstation_ip = codes "10.0.0.5";
  ssh_private_key = [];
  clusters = cluster_spec asked made ∷ [];
  playbook_path = [];
  proxy_addr = [];
  proxy_ipt_script = [];
}

inventory-NoHosts_example :
    All NoHosts handed.clusters
    × (generate_inventory handed
        ≡ generate_inventory (record handed { clusters = map emptied handed.clusters }))
unfolding cluster_specs
inventory-NoHosts_example =
    inventory-NoHosts (asked ∷ []) (made ∷ []) handed.clusters handed refl refl
