-- ===== src/Proxmox/Refusal.antt =====
-- An environment that names an unknown clone profile.
use painkiller.Prelude.{
  ◌≡◌, Bool, true, false, none, some, List, [], ◌∷◌, ◌++◌, any, arith, Option-cases, inl, inr, Text,
}
use painkiller.Provider.{VmRequest, ClusterRequest, EnvironmentSpec}
use painkiller.Proxmox.Wire.{Remote, Wire, failed}
use painkiller.Proxmox.Machines.{
  Profiles, profile_for, nodes_known, clusters_known, create_environment, unknown_profile,
}

-- Every machine that the specification asks for.
abbrev pub all_nodes : List ClusterRequest → List VmRequest
all_nodes [] = []
all_nodes (c ∷ cs) = c.nodes ++ all_nodes cs

abbrev pub has_no_profile : Profiles → VmRequest → Bool
has_no_profile ps n = elim (profile_for ps n.template) [ none ↦ true | some _ ↦ false ]

module _ (r : Remote) (ps : Profiles) where
  unknown_node :
      (ns rest : List VmRequest)
      → any (has_no_profile ps) (ns ++ rest) ≡ true
      → nodes_known r ps ns ≡ none
      → any (has_no_profile ps) rest ≡ true
  unfolding nodes_known
  unknown_node [] rest h e = h
  unknown_node (n ∷ ns) rest h e = elim (Option-cases (profile_for ps n.template)) [
    | inl nothing ↦ cc
    | inr (p, found) ↦ unknown_node ns rest (ground arith) (ground arith)
  ]

  unknown_cluster :
      (cs : List ClusterRequest)
      → any (has_no_profile ps) (all_nodes cs) ≡ true
      → (t : Text) × (clusters_known r ps cs ≡ some t)
  unfolding clusters_known
  unknown_cluster [] h = cc
  unknown_cluster (c ∷ cs) h = elim (Option-cases (nodes_known r ps c.nodes)) [
    | inl fine ↦
        let (t, e) = unknown_cluster cs (unknown_node c.nodes (all_nodes cs) h fine) in
        (t, ground arith)
    | inr (t, e) ↦ (t, ground arith)
  ]

  -- If the workstation or any node of any cluster asks for a template without a clone profile, the
  -- making of the environment fails before a request is sent: the wire is as it was.
  pub create-unknown :
      (spec : EnvironmentSpec) (s : Wire)
      → any (has_no_profile ps) (spec.workstation ∷ all_nodes spec.clusters) ≡ true
      → (template : Text) × (create_environment r ps spec s
          ≡ (failed (unknown_profile template), s))
  unfolding create_environment
  create-unknown spec s h = elim (Option-cases (profile_for ps spec.workstation.template)) [
    | inl nothing ↦ (spec.workstation.template, ground arith)
    | inr (p, found) ↦
        let (t, e) = unknown_cluster spec.clusters (ground arith) in (t, ground arith)
  ]
