-- ===== src/Scenarios/Topology/RoundTrip.antt =====
-- What a topology loses on its way through the database: the importer writes `KubeContext` and
-- `DisplayName`, the orchestrator reads `kube_context` and `display_name`.
use painkiller.Prelude.{◌≡◌, refl, List, [], ◌∷◌, map, some, arith, text_eq}
use mathlib.Core.Path.{ap₂}
use painkiller.Scenarios.Schema.{Node, Cluster, Topology}
use painkiller.Scenarios.Topology.{
  encode_topology, decode_topology, encode_node, encode_nodes, encode_cluster, encode_clusters,
  decode_node, prepend, decode_node_fields, decode_node_field, decode_nodes, decode_cluster,
  decode_cluster_fields, decode_cluster_field, decode_clusters,
}

-- A cluster without its context and its display name.
abbrev pub blanked : Cluster → Cluster
blanked c = record c { display_name = []; kube_context = [] }

decode-encode_node : (n : Node) → decode_node (encode_node n) ≡ some n
unfolding decode_node encode_node decode_node_fields decode_node_field text_eq
decode-encode_node n = refl

decode-encode_nodes : (ns : List Node) → decode_nodes (encode_nodes ns) ≡ some ns
unfolding decode_nodes encode_nodes
decode-encode_nodes [] = refl
decode-encode_nodes (n ∷ ns) = ap₂ prepend (decode-encode_node n) (decode-encode_nodes ns)

decode-encode_cluster : (c : Cluster) → decode_cluster (encode_cluster c) ≡ some (blanked c)
unfolding decode_cluster encode_cluster decode_cluster_fields decode_cluster_field text_eq
decode-encode_cluster c = ground (arith, decode-encode_nodes c.nodes)

decode-encode_clusters :
    (cs : List Cluster) → decode_clusters (encode_clusters cs) ≡ some (map blanked cs)
unfolding decode_clusters encode_clusters
decode-encode_clusters [] = refl
decode-encode_clusters (c ∷ cs) = ap₂ prepend (decode-encode_cluster c) (decode-encode_clusters cs)

-- A topology that is written and read back has its clusters and nodes, in order, with their
-- identifiers, names, roles and templates; every cluster's context and display name are empty.
pub decode-encode_topology :
    (t : Topology)
    → decode_topology (encode_topology t) ≡ some (record { clusters = map blanked t.clusters })
unfolding decode_topology encode_topology text_eq
decode-encode_topology t = rw (decode-encode_clusters t.clusters)
