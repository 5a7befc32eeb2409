-- ===== src/Ansible/Inventory.antt =====
-- internal/provisioner/ansible/inventory.go: the inventory of hosts for a playbook.
use painkiller.Prelude.{
  ◌∙◌, ap, ◌≡◌, refl, Option, none, some, List, [], ◌∷◌, ◌++◌, if◌then◌else◌, Text, codes, text_eq,
  map, All, sym, ◌==◌,
}
use painkiller.Provider.{NodeSpec, ClusterSpec, ClusterResult, EnvironmentProvisionSpec, VmResult}
use painkiller.Scenarios.Schema.{Cluster}
use painkiller.Orchestrator.Spec.{cluster_specs, cluster_spec, node_spec, cons_option}
use mathlib.Core.Path.{subst}

-- `strings.ReplaceAll(name, "-", "_")`
abbrev pub underscored : Text → Text
underscored = map (λ c. if c == 45 then 95 else c)

abbrev newline : Text
newline = 10 ∷ []

abbrev host_line : NodeSpec → Text
host_line n = n.hostname ++ codes " ansible_host=" ++ n.ip ++ codes " ansible_user=root" ++ newline

-- The loop over the nodes with one role.
unfoldable pub host_lines : Text → List NodeSpec → Text
host_lines role [] = []
host_lines role (n ∷ ns) =
    let rest = host_lines role ns in if text_eq n.role role then host_line n ++ rest else rest

abbrev pub cluster_groups : ClusterSpec → Text
cluster_groups c =
    let group = underscored c.name in
    codes "["
    ++ group
    ++ codes "_control_plane]"
    ++ newline
    ++ host_lines (codes "control-plane") c.nodes
    ++ newline
    ++ codes "["
    ++ group
    ++ codes "_workers]"
    ++ newline
    ++ host_lines (codes "worker") c.nodes
    ++ newline
    ++ codes "["
    ++ group
    ++ codes ":children]"
    ++ newline
    ++ group
    ++ codes "_control_plane"
    ++ newline
    ++ group
    ++ codes "_workers"
    ++ newline
    ++ newline

unfoldable pub all_groups : List ClusterSpec → Text
all_groups [] = []
all_groups (c ∷ cs) = cluster_groups c ++ all_groups cs

unfoldable pub generate_inventory : EnvironmentProvisionSpec → Text
generate_inventory spec =
    codes "[workstation]"
    ++ newline
    ++ spec.workstation_ip
    ++ codes " ansible_user=root"
    ++ newline
    ++ newline
    ++ all_groups spec.clusters
    ++ codes "[all:vars]"
    ++ newline
    ++ codes "ansible_ssh_private_key_file=/tmp/painkiller-ssh-key"
    ++ newline
    ++ codes "ansible_ssh_common_args='-o StrictHostKeyChecking=no'"
    ++ newline

-- A cluster whose two groups have no host.
abbrev pub NoHosts : ClusterSpec → Type 0
NoHosts c =
    (host_lines (codes "control-plane") c.nodes ≡ []) × (host_lines (codes "worker") c.nodes ≡ [])

no_lines :
    (vms : List VmResult)
    → (host_lines (codes "control-plane") (map node_spec vms) ≡ [])
      × (host_lines (codes "worker") (map node_spec vms) ≡ [])
unfolding host_lines text_eq
no_lines [] = (refl, refl)
no_lines (v ∷ vms) = no_lines vms

cons_cases :
    (c : ClusterSpec) (o : Option (List ClusterSpec)) (cs : List ClusterSpec)
    → cons_option c o ≡ some cs
    → (ds : List ClusterSpec) × (o ≡ some ds) × (c ∷ ds ≡ cs)
cons_cases c none cs h = cc
cons_cases c (some ds) cs h = (ds, refl, cc)

no_hosts :
    (asked : List Cluster) (made : List ClusterResult) (cs : List ClusterSpec)
    → cluster_specs asked made ≡ some cs
    → All NoHosts cs
unfolding cluster_specs
no_hosts asked [] cs h = let same : [] ≡ cs = cc in subst (All NoHosts) same tt
no_hosts [] (c ∷ made) cs h = cc
no_hosts (a ∷ asked) (c ∷ made) cs h =
    let (ds, e, same) = cons_cases (cluster_spec a c) (cluster_specs asked made) cs h in
    subst (All NoHosts) same (no_lines c.nodes, no_hosts asked made ds e)

-- The cluster as if it had no node.
abbrev pub emptied : ClusterSpec → ClusterSpec
emptied c = record c { nodes = [] }

group_emptied : (c : ClusterSpec) → NoHosts c → cluster_groups c ≡ cluster_groups (emptied c)
unfolding host_lines
group_emptied c (planes, workers) = rw (planes, workers)

groups_emptied :
    (cs : List ClusterSpec) → All NoHosts cs → all_groups cs ≡ all_groups (map emptied cs)
unfolding all_groups
groups_emptied [] h = refl
groups_emptied (c ∷ cs) (h, hs) =
    ap (λ g. g ++ all_groups cs) (group_emptied c h)
    ∙ ap (λ gs. cluster_groups (emptied c) ++ gs) (groups_emptied cs hs)

-- The provisioning job hands over clusters whose nodes have no role. So the two groups of each of
-- them, control plane and workers, have no host, and the whole inventory is the same text as for
-- clusters without a node: only the workstation is a host in it.
pub inventory-NoHosts :
    (asked : List Cluster) (made : List ClusterResult) (cs : List ClusterSpec)
    (spec : EnvironmentProvisionSpec)
    → cluster_specs asked made ≡ some cs
    → spec.clusters ≡ cs
    → All NoHosts spec.clusters
      × (generate_inventory spec
          ≡ generate_inventory (record spec { clusters = map emptied spec.clusters }))
unfolding generate_inventory
inventory-NoHosts asked made cs spec h handed =
    let hosts = subst (All NoHosts) (sym handed) (no_hosts asked made cs h) in
    (hosts, rw (groups_emptied spec.clusters hosts))
