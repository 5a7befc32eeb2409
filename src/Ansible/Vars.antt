-- ===== src/Ansible/Vars.antt =====
-- internal/provisioner/ansible/vars.go: the variables of a playbook, as the map that is handed to
-- yaml.Marshal. A key that stands earlier hides the later ones.
use painkiller.Prelude.{List, [], ◌∷◌, ◌++◌, Text, codes, is_empty, if◌then◌else◌}
use painkiller.Json.{Json, Items, str, arr, obj, nil, cons, end, field}
use painkiller.Provider.{NodeSpec, ClusterSpec, EnvironmentProvisionSpec}

abbrev node_vars : NodeSpec → Json
node_vars n = obj (
    field (codes "hostname") (str n.hostname)
      (field (codes "ip") (str n.ip) (field (codes "role") (str n.role) end)))

-- The loop over the nodes of a cluster, and that over the clusters.
abbrev nodes_vars : List NodeSpec → Items
nodes_vars [] = nil
nodes_vars (n ∷ ns) = cons (node_vars n) (nodes_vars ns)

abbrev cluster_vars : ClusterSpec → Json
cluster_vars c = obj (
    field (codes "name") (str c.name) (
      field (codes "kube_context") (str c.kube_context)
        (field (codes "nodes") (arr (nodes_vars c.nodes)) end)))

abbrev clusters_vars : List ClusterSpec → Items
clusters_vars [] = nil
clusters_vars (c ∷ cs) = cons (cluster_vars c) (clusters_vars cs)

abbrev pub Vars : Type 0
Vars = List (Text × Json)

abbrev pub proxy_url : Text → Json
proxy_url addr = str (codes "http://" ++ addr)

abbrev proxy_vars : Text → Vars
proxy_vars addr =
    if is_empty addr
    then []
    else (codes "http_proxy", proxy_url addr)
      ∷ (codes "https_proxy", proxy_url addr)
      ∷ (
        codes "no_proxy",
        str (codes "localhost,127.0.0.1,10.0.0.0/8,172.16.0.0/12,192.168.0.0/16"),
      )
      ∷ []

abbrev script_vars : Text → Vars
script_vars script =
    if is_empty script then [] else (codes "proxy_iptables_script", str script) ∷ []

-- `GenerateVars` up to the YAML. `scenario` is `spec.ScenarioVars`, whose entries win.
unfoldable pub generate_vars : Vars → EnvironmentProvisionSpec → Vars
generate_vars scenario spec =
    scenario
    ++ (codes "workstation_ip", str spec.workstation_ip)
      ∷ (codes "clusters", arr (clusters_vars spec.clusters))
      ∷ (proxy_vars spec.proxy_addr ++ script_vars spec.proxy_ipt_script)
