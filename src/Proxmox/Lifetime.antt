-- ===== src/Proxmox/Lifetime.antt =====
-- An environment of virtual machines from its making to its destruction.
use painkiller.Prelude.{
  ℤ, ◌≡◌, refl, sym, ap, ◌∙◌, Bool, Option, none, some, List, [], ◌∷◌, ◌++◌, Text,
}
use painkiller.Proxmox.Wire.{configure, start, Remote, Wire, done}
use painkiller.Prelude.{decimal_ℤ, map}
use painkiller.Proxmox.Client.{clone_vm, configure_vm, start_vm}
use painkiller.Proxmox.Machines.{wait_for_ip}
use painkiller.Proxmox.Machines.{
  build_vm, build_node, build_nodes, build_clusters, create_environment, raise_unknown, Profiles,
  CloneProfile,
}
use painkiller.Provider.{VmRequest, ClusterRequest, EnvironmentSpec, EnvironmentResult}
use painkiller.Proxmox.Sent.{picked, Leaves, sending, and_then-Leaves, plain-Leaves, request-Leaves}
use painkiller.Proxmox.Quiet.{wait_for_body-Leaves, wait_for_ip-Leaves, clone_vm-Leaves}
use painkiller.Prelude.{All}
use mathlib.Core.Path.{subst}
use painkiller.Json.{names}
use painkiller.Proxmox.Machines.{destroy_environment}
use painkiller.Orchestrator.Spec.{metadata_of}
use painkiller.Proxmox.Creating.{starts, create_environment-starts}
use painkiller.Proxmox.Destroying.{
  deletes, machines_of, machine_of, IsVmid, machines_of-decimal, machine_of-decimal, cancel_front,
  decode-metadata_of, destroy_environment-deletes,
}

split_names :
    (n : Text) (ns : List Text) (ids : List ℤ)
    → n ∷ ns ≡ map decimal_ℤ ids
    → (v : ℤ) × (vs : List ℤ) × (ids ≡ v ∷ vs) × (n ≡ decimal_ℤ v) × (ns ≡ map decimal_ℤ vs)
split_names n ns [] e = cc
split_names n ns (v ∷ vs) e = (v, vs, refl, cc, cc)

split_good :
    (ids : List ℤ) (v : ℤ) (vs : List ℤ) → ids ≡ v ∷ vs → All IsVmid ids → IsVmid v × All IsVmid vs
split_good ids v vs e h = subst (All IsVmid) e h

rotated :
    (w : ℤ) (nodes : List ℤ) (name : Text) (names : List Text)
    → name ≡ decimal_ℤ w
    → names ≡ map decimal_ℤ nodes
    → IsVmid w
    → All IsVmid nodes
    → machines_of names ++ machine_of name ≡ nodes ++ w ∷ []
rotated w nodes name names e es good goods =
    ap (λ t. machines_of t ++ machine_of name) es
    ∙ ap (λ t. t ++ machine_of name) (machines_of-decimal nodes goods)
    ∙ ap (λ t. nodes ++ t) (ap machine_of e ∙ machine_of-decimal w good)

module _ (r : Remote) where
  -- An environment that was made and is destroyed with the metadata that the orchestrator keeps of
  -- its result: if the API gave positive numbers that fit an `int64`, the destruction deletes exactly
  -- the machines that were started for it, the nodes in their order and the workstation last, whatever
  -- the calls answer then.
  pub destroy-create :
      (ps : Profiles) (spec : EnvironmentSpec) (s t : Wire) (result : EnvironmentResult)
      (ids : List ℤ)
      → (create_environment r ps spec s).0 ≡ done result
      → picked starts (create_environment r ps spec s).1.sent ≡ picked starts s.sent ++ ids
      → All IsVmid ids
      → (workstation : ℤ) × (nodes : List ℤ) × (ids ≡ workstation ∷ nodes)
        × (picked deletes (destroy_environment r (metadata_of result) t).1.sent
            ≡ picked deletes t.sent ++ (nodes ++ workstation ∷ []))
  destroy-create ps spec s t result ids e sent good =
      let (started, names, all) = create_environment-starts r ps spec s result e in
      let same_ids = cancel_front (picked starts s.sent) started ids (sym all ∙ sent) in
      let (w, nodes, split, name, rest) =
        split_names _ _ ids (names ∙ ap (map decimal_ℤ) same_ids) in
      let (fit, fits) = split_good ids w nodes split good in
      let (fine, gone) =
        destroy_environment-deletes r (metadata_of result) _ t (decode-metadata_of result) in
      (
        w,
        nodes,
        split,
        gone ∙ ap (λ x. picked deletes t.sent ++ x) (rotated w nodes _ _ name rest fit fits),
      )

  start_vm-quiet :
      (before : List ℤ) (v : ℤ) (s : Wire)
      → picked deletes s.sent ≡ before
      → Leaves deletes before (start_vm r v s)
  unfolding start_vm
  start_vm-quiet before v s h =
      and_then-Leaves deletes before _ _ (request-Leaves deletes before r (start v) s refl h)
        (λ body s' h'. wait_for_body-Leaves deletes before r (λ n u. refl) _ s' h')

  clone-quiet :
      (before : List ℤ) (t : ℤ) (n : Text) (full : Bool) (s : Wire)
      → picked deletes s.sent ≡ before
      → Leaves deletes before (clone_vm r t n full s)
  clone-quiet before t n full s h =
      clone_vm-Leaves deletes before r (λ n u. refl) refl t n full (λ v o. refl) s h

  configure-quiet :
      (before : List ℤ) (v : ℤ) (c : List (Text × Text)) (s : Wire)
      → picked deletes s.sent ≡ before
      → Leaves deletes before (configure_vm r v c s)
  unfolding configure_vm
  configure-quiet before v c s h =
      and_then-Leaves deletes before _ _ (request-Leaves deletes before r (configure v c) s refl h)
        (λ b s' h'. plain-Leaves deletes before _ s' h')

  ip-quiet :
      (before : List ℤ) (v : ℤ) (s : Wire)
      → picked deletes s.sent ≡ before
      → Leaves deletes before (wait_for_ip r v s)
  ip-quiet before v s h = wait_for_ip-Leaves deletes before r v s refl h

  build_vm-quiet :
      (before : List ℤ) (what context : Text) (p : CloneProfile) (vm : VmRequest) (s : Wire)
      → picked deletes s.sent ≡ before
      → Leaves deletes before (build_vm r what context p vm s)
  unfolding build_vm
  build_vm-quiet before what context p vm s h =
      search (sending, clone-quiet, configure-quiet, start_vm-quiet, ip-quiet) depth 14 fits 20000

  build_node-quiet :
      (ps : Profiles) (before : List ℤ) (n : VmRequest) (s : Wire)
      → picked deletes s.sent ≡ before
      → Leaves deletes before (build_node r ps n s)
  unfolding build_node
  build_node-quiet ps before n s h = search (sending, build_vm-quiet) depth 8 fits 20000

  build_nodes-quiet :
      (ps : Profiles) (before : List ℤ) (ns : List VmRequest) (s : Wire)
      → picked deletes s.sent ≡ before
      → Leaves deletes before (build_nodes r ps ns s)
  unfolding build_nodes
  build_nodes-quiet ps before [] s h = plain-Leaves deletes before _ s h
  build_nodes-quiet ps before (n ∷ ns) s h =
      let rest = build_nodes-quiet ps before ns in
      search (sending, build_node-quiet, rest) depth 8 fits 20000

  build_clusters-quiet :
      (ps : Profiles) (before : List ℤ) (cs : List ClusterRequest) (s : Wire)
      → picked deletes s.sent ≡ before
      → Leaves deletes before (build_clusters r ps cs s)
  unfolding build_clusters
  build_clusters-quiet ps before [] s h = plain-Leaves deletes before _ s h
  build_clusters-quiet ps before (c ∷ cs) s h =
      let rest = build_clusters-quiet ps before cs in
      search (sending, build_nodes-quiet, rest) depth 8 fits 20000

  known-quiet :
      (before : List ℤ) (t : Option Text) (s : Wire)
      → picked deletes s.sent ≡ before
      → Leaves deletes before (raise_unknown t s)
  known-quiet before none s h = record { holds = h }
  known-quiet before (some t) s h = record { holds = h }

  create-quiet :
      (ps : Profiles) (before : List ℤ) (spec : EnvironmentSpec) (s : Wire)
      → picked deletes s.sent ≡ before
      → Leaves deletes before (create_environment r ps spec s)
  unfolding create_environment
  create-quiet ps before spec s h =
      search (sending, known-quiet, build_vm-quiet, build_clusters-quiet) depth 12 fits 20000

  -- The making of an environment deletes no machine, however it ends: where a later step fails, the
  -- machines that were made before it stay.
  pub create-deletes :
      (ps : Profiles) (spec : EnvironmentSpec) (s : Wire)
      → picked deletes (create_environment r ps spec s).1.sent ≡ picked deletes s.sent
  create-deletes ps spec s = (create-quiet ps (picked deletes s.sent) spec s refl).holds
