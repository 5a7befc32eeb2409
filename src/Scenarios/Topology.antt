-- ===== src/Scenarios/Topology.antt =====
-- The topology of a scenario as JSON: `json.Marshal(s.Topology)` in internal/importer/importer.go
-- writes the Go names of the fields, since the struct has YAML tags only, and
-- internal/orchestrator/provision_job.go reads it back into a struct with JSON tags.
pub mod RoundTrip
use painkiller.Prelude.{
  ℕ, ◌-◌, ◌==◌, leb, Bool, ◌&&◌, Option, none, some, List, [], ◌∷◌, map, Text, codes, text_eq,
  if◌then◌else◌,
}
use mathlib.Core.Option
use painkiller.Json.{
  names, decode_text, Json, Items, Fields, null, str, arr, obj, nil, cons, end, field,
}
use painkiller.Scenarios.Schema.{Node, Cluster, Topology}

pub encode_node : Node → Json
encode_node n = obj (
    field (codes "Name") (str n.name)
      (field (codes "Role") (str n.role) (field (codes "Template") (str n.template) end)))

encode_nodes : List Node → Items
encode_nodes [] = nil
encode_nodes (n ∷ ns) = cons (encode_node n) (encode_nodes ns)

pub encode_cluster : Cluster → Json
encode_cluster c = obj (
    field (codes "ID") (str c.id) (
      field (codes "DisplayName") (str c.display_name) (
        field (codes "KubeContext") (str c.kube_context)
          (field (codes "Nodes") (arr (encode_nodes c.nodes)) end))))

encode_clusters : List Cluster → Items
encode_clusters [] = nil
encode_clusters (c ∷ cs) = cons (encode_cluster c) (encode_clusters cs)

unfoldable pub encode_topology : Topology → Json
unfolding encode_node encode_nodes encode_cluster encode_clusters
encode_topology t = obj (field (codes "Clusters") (arr (encode_clusters t.clusters)) end)

abbrev set_name : Node → Text → Node
set_name n t = record n { name = t }

abbrev set_role : Node → Text → Node
set_role n t = record n { role = t }

abbrev set_template : Node → Text → Node
set_template n t = record n { template = t }

decode_node_field : Text → Json → Node → Option Node
decode_node_field key j n =
    if names key (codes "name")
    then Option.map (set_name n) (decode_text n.name j)
    else if names key (codes "role")
    then Option.map (set_role n) (decode_text n.role j)
    else if names key (codes "template")
    then Option.map (set_template n) (decode_text n.template j)
    else some n

decode_node_fields : Fields → Node → Option Node
decode_node_fields end n = some n
decode_node_fields (field k j fs) n = elim (decode_node_field k j n) [
  | none ↦ none
  | some m ↦ decode_node_fields fs m
]

abbrev empty_node : Node
empty_node = record { name = []; role = []; template = [] }

decode_node : Json → Option Node
decode_node (obj fs) = decode_node_fields fs empty_node
decode_node null = some empty_node
decode_node _ = none

-- An element and the rest of an array; an error in either is an error.
abbrev prepend : {A : Type 0} → Option A → Option (List A) → Option (List A)
prepend (some x) (some xs) = some (x ∷ xs)
prepend _ _ = none

decode_nodes : Items → Option (List Node)
decode_nodes nil = some []
decode_nodes (cons j js) = prepend (decode_node j) (decode_nodes js)

-- An array, or null, which empties the slice.
abbrev decode_node_list : Json → Option (List Node)
decode_node_list (arr js) = decode_nodes js
decode_node_list null = some []
decode_node_list _ = none

abbrev set_id : Cluster → Text → Cluster
set_id c t = record c { id = t }

abbrev set_display_name : Cluster → Text → Cluster
set_display_name c t = record c { display_name = t }

abbrev set_kube_context : Cluster → Text → Cluster
set_kube_context c t = record c { kube_context = t }

abbrev set_nodes : Cluster → List Node → Cluster
set_nodes c ns = record c { nodes = ns }

decode_cluster_field : Text → Json → Cluster → Option Cluster
unfolding decode_nodes decode_node decode_node_fields decode_node_field
decode_cluster_field key j c =
    if names key (codes "id")
    then Option.map (set_id c) (decode_text c.id j)
    else if names key (codes "display_name")
    then Option.map (set_display_name c) (decode_text c.display_name j)
    else if names key (codes "kube_context")
    then Option.map (set_kube_context c) (decode_text c.kube_context j)
    else if names key (codes "nodes")
    then Option.map (set_nodes c) (decode_node_list j)
    else some c

decode_cluster_fields : Fields → Cluster → Option Cluster
decode_cluster_fields end c = some c
decode_cluster_fields (field k j fs) c = elim (decode_cluster_field k j c) [
  | none ↦ none
  | some d ↦ decode_cluster_fields fs d
]

abbrev empty_cluster : Cluster
empty_cluster = record { id = []; display_name = []; kube_context = []; nodes = [] }

decode_cluster : Json → Option Cluster
unfolding decode_cluster_fields
decode_cluster (obj fs) = decode_cluster_fields fs empty_cluster
decode_cluster null = some empty_cluster
decode_cluster _ = none

decode_clusters : Items → Option (List Cluster)
decode_clusters nil = some []
decode_clusters (cons j js) = prepend (decode_cluster j) (decode_clusters js)

abbrev decode_cluster_list : Json → Option (List Cluster)
decode_cluster_list (arr js) = decode_clusters js
decode_cluster_list null = some []
decode_cluster_list _ = none

decode_topology_fields : Fields → Topology → Option Topology
decode_topology_fields end t = some t
decode_topology_fields (field k j fs) t =
    let others = decode_topology_fields fs t in
    if names k (codes "clusters")
    then elim (decode_cluster_list j) [
      | none ↦ none
      | some cs ↦ decode_topology_fields fs (record { clusters = cs })
    ]
    else others

-- `json.Unmarshal(topology_json, &topology)`; `none` is its error. Where one object names a field
-- twice, the last one counts.
unfoldable pub decode_topology : Json → Option Topology
unfolding decode_topology_fields decode_clusters decode_cluster decode_cluster_field
decode_topology (obj fs) = decode_topology_fields fs (record { clusters = [] })
decode_topology null = some (record { clusters = [] })
decode_topology _ = none
