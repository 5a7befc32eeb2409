-- ===== src/Scenarios/Examples.antt =====
-- The theorems on internal/scenarios at work.
use painkiller.Prelude.{◌≡◌, [], ◌∷◌, map, some, codes}
use painkiller.Scenarios.Schema.{Topology}
use painkiller.Scenarios.Topology.{encode_topology, decode_topology}
use painkiller.Scenarios.Topology.RoundTrip.{blanked, decode-encode_topology}

-- One cluster with one node.
abbrev small : Topology
small = record {
  clusters =
      record {
        id = codes "k8s";
        display_name = codes "Cluster";
        kube_context = codes "kubernetes-admin";
        nodes =
            record { name = codes "cp"; role = codes "control-plane"; template = codes "t" } ∷ [];
      }
      ∷ [];
}

decode-encode_topology_example :
    decode_topology (encode_topology small)
    ≡ some (record { clusters = map blanked small.clusters })
decode-encode_topology_example = decode-encode_topology small
