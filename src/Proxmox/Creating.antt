-- ===== src/Proxmox/Creating.antt =====
-- Which machines the making of an environment starts.
use painkiller.Prelude.{
  ℤ, ◌≡◌, refl, sym, ap, ◌∙◌, Option, none, some, List, [], ◌∷◌, ◌++◌, Text, append-nil,
  append_assoc, map-append,
}
use painkiller.Proxmox.Wire.{
  Request, configure, start, Remote, Wire, Outcome, done, failed, Call, and_then, do_request,
}
use painkiller.Prelude.{decimal_ℤ, map}
use painkiller.Proxmox.Client.{configure_vm, start_vm}
use painkiller.Proxmox.Machines.{
  build_vm, build_node, build_nodes, build_clusters, create_environment, clusters_known,
  raise_unknown, Profiles, CloneProfile, profile_for,
}
use painkiller.Provider.{
  VmRequest, VmResult, ClusterRequest, ClusterResult, EnvironmentSpec, EnvironmentResult,
}
use painkiller.Proxmox.Sent.{
  picked, picked-some, Leaves, and_then-Leaves, wrapped-Leaves, plain-Leaves, or_raise-Leaves,
  request-Leaves,
}
use painkiller.Proxmox.Quiet.{wait_for_body-Leaves, wait_for_ip-Leaves, clone_vm-Leaves}

-- The requests that start a machine.
abbrev pub starts : Request → Option ℤ
starts (start v) = some v
starts _ = none

-- The machines of a result, by the names that it carries.
abbrev pub node_names : List VmResult → List Text
node_names [] = []
node_names (n ∷ ns) = n.provider_vm_id ∷ node_names ns

abbrev pub cluster_names : List ClusterResult → List Text
cluster_names [] = []
cluster_names (c ∷ cs) = node_names c.nodes ++ cluster_names cs

-- The workstation first, and the nodes in their order.
abbrev pub all_names : EnvironmentResult → List Text
all_names result = result.workstation.provider_vm_id ∷ cluster_names result.clusters

join_names :
    (xs ys : List Text) (ids more : List ℤ)
    → xs ≡ map decimal_ℤ ids
    → ys ≡ map decimal_ℤ more
    → xs ++ ys ≡ map decimal_ℤ (ids ++ more)
join_names xs ys ids more e f =
    ap (λ t. t ++ ys) e ∙ ap (λ t. map decimal_ℤ ids ++ t) f ∙ sym (map-append decimal_ℤ ids more)

module _ (r : Remote) where
  start_vm-Leaves :
      (before : List ℤ) (v : ℤ) (s : Wire)
      → picked starts s.sent ≡ before
      → Leaves starts (before ++ v ∷ []) (start_vm r v s)
  unfolding start_vm do_request
  start_vm-Leaves before v s h =
      and_then-Leaves starts (before ++ v ∷ []) (do_request r (start v) s) _
        (record { holds = picked-some starts s.sent (start v) v refl ∙ ap (λ t. t ++ v ∷ []) h })
        (λ body s' h'. wait_for_body-Leaves starts (before ++ v ∷ []) r (λ n u. refl) _ s' h')

  -- Where the call ends well, the machines that it names are those that it has started.
  record Builds {A : Type 0} (before : List ℤ) (names : A → List Text) (o : Outcome A × Wire)
      : Type 0 where
    pub holds :
        (a : A)
        → o.0 ≡ done a
        → (ids : List ℤ) × (names a ≡ map decimal_ℤ ids) × (picked starts o.1.sent ≡ before ++ ids)

  built :
      {A : Type 0} (before : List ℤ) (names : A → List Text) (a : A) (ids : List ℤ) (s : Wire)
      → names a ≡ map decimal_ℤ ids
      → picked starts s.sent ≡ before ++ ids
      → Builds before names (done a, s)
  built before names a ids s e h = record {
    holds = λ b same. let equal : a ≡ b = cc in (ids, ap names (sym equal) ∙ e, h);
  }

  bind-Builds :
      {A B : Type 0} (first before : List ℤ) (names : A → List Text) (all : B → List Text)
      (o : Outcome A × Wire) (f : A → Call B)
      → Builds first names o
      → ((a : A) (ids : List ℤ) (s : Wire)
          → names a ≡ map decimal_ℤ ids
          → picked starts s.sent ≡ first ++ ids
          → Builds before all (f a s))
      → Builds before all (and_then o f)
  bind-Builds first before names all (done a, s) f h k =
      let (ids, e, sent) = h.holds a refl in k a ids s e sent
  bind-Builds first before names all (failed e, s) f h k = record { holds = λ a e'. cc }

  then-Builds :
      {A B : Type 0} (before now : List ℤ) (names : B → List Text) (o : Outcome A × Wire)
      (f : A → Call B)
      → Leaves starts now o
      → ((a : A) (s : Wire) → picked starts s.sent ≡ now → Builds before names (f a s))
      → Builds before names (and_then o f)
  then-Builds before now names (done a, s) f h k = k a s h.holds
  then-Builds before now names (failed e, s) f h k = record { holds = λ a e'. cc }

  build_vm-Builds :
      (before : List ℤ) (what context : Text) (p : CloneProfile) (vm : VmRequest) (s : Wire)
      → picked starts s.sent ≡ before
      → Builds before (λ m. m.provider_vm_id ∷ []) (build_vm r what context p vm s)
  unfolding build_vm configure_vm
  build_vm-Builds before what context p vm s h =
      then-Builds before before _ _ _
        (wrapped-Leaves starts before _ _
          (clone_vm-Leaves starts before r (λ n u. refl) refl _ _ _ (λ v o. refl) s h))
        (λ v s1 h1.
          then-Builds before before _ _ _
            (wrapped-Leaves starts before _ _ (
              and_then-Leaves starts before _ _
                (request-Leaves starts before r (configure v _) s1 refl h1)
                (λ b s2 h2. plain-Leaves starts before _ s2 h2)))
            (λ u s2 h2.
              then-Builds before (before ++ v ∷ []) _ _ _
                (wrapped-Leaves starts (before ++ v ∷ []) _ _ (start_vm-Leaves before v s2 h2))
                (λ u s3 h3.
                  then-Builds before (before ++ v ∷ []) _ _ _
                    (wrapped-Leaves starts (before ++ v ∷ []) _ _
                      (wait_for_ip-Leaves starts (before ++ v ∷ []) r v s3 refl h3))
                    (λ ip s4 h4. built before _ _ (v ∷ []) s4 refl h4))))

  build_node-Builds :
      (ps : Profiles) (before : List ℤ) (n : VmRequest) (s : Wire)
      → picked starts s.sent ≡ before
      → Builds before (λ m. m.provider_vm_id ∷ []) (build_node r ps n s)
  unfolding build_node
  build_node-Builds ps before n s h =
      then-Builds before before _ _ _
        (or_raise-Leaves starts before (profile_for ps n.template) _ s h)
        (λ p s1 h1. build_vm-Builds before _ _ p n s1 h1)

  build_nodes-Builds :
      (ps : Profiles) (before : List ℤ) (ns : List VmRequest) (s : Wire)
      → picked starts s.sent ≡ before
      → Builds before node_names (build_nodes r ps ns s)
  unfolding build_nodes
  build_nodes-Builds ps before [] s h =
      built before node_names [] [] s refl (h ∙ sym (append-nil before))
  build_nodes-Builds ps before (n ∷ ns) s h =
      bind-Builds before before _ _ _ _ (build_node-Builds ps before n s h) (λ m ids s1 e1 h1.
        bind-Builds (before ++ ids) before _ _ _ _ (build_nodes-Builds ps (before ++ ids) ns s1 h1)
          (λ rest more s2 e2 h2.
            built before node_names (m ∷ rest) (ids ++ more) s2
              (join_names (m.provider_vm_id ∷ []) (node_names rest) ids more e1 e2)
              (h2 ∙ append_assoc before ids more)))

  build_clusters-Builds :
      (ps : Profiles) (before : List ℤ) (cs : List ClusterRequest) (s : Wire)
      → picked starts s.sent ≡ before
      → Builds before cluster_names (build_clusters r ps cs s)
  unfolding build_clusters
  build_clusters-Builds ps before [] s h =
      built before cluster_names [] [] s refl (h ∙ sym (append-nil before))
  build_clusters-Builds ps before (c ∷ cs) s h =
      bind-Builds before before _ _ _ _ (build_nodes-Builds ps before c.nodes s h)
        (λ m ids s1 e1 h1.
          bind-Builds (before ++ ids) before _ _ _ _
            (build_clusters-Builds ps (before ++ ids) cs s1 h1)
            (λ rest more s2 e2 h2.
              built before cluster_names _ (ids ++ more) s2
                (join_names (node_names m) (cluster_names rest) ids more e1 e2)
                (h2 ∙ append_assoc before ids more)))

  known-Leaves :
      (before : List ℤ) (t : Option Text) (s : Wire)
      → picked starts s.sent ≡ before
      → Leaves starts before (raise_unknown t s)
  known-Leaves before none s h = record { holds = h }
  known-Leaves before (some t) s h = record { holds = h }

  environment-Builds :
      (ps : Profiles) (before : List ℤ) (spec : EnvironmentSpec) (s : Wire)
      → picked starts s.sent ≡ before
      → Builds before all_names (create_environment r ps spec s)
  unfolding create_environment
  environment-Builds ps before spec s h =
      then-Builds before before _ _ _
        (or_raise-Leaves starts before (profile_for ps spec.workstation.template) _ s h)
        (λ p s1 h1.
          then-Builds before before _ _ _
            (known-Leaves before (clusters_known r ps spec.clusters) s1 h1)
            (λ u s2 h2.
              bind-Builds before before _ _ _ _
                (build_vm-Builds before _ _ p spec.workstation s2 h2)
                (λ m ids s3 e3 h3.
                  bind-Builds (before ++ ids) before _ _ _ _
                    (build_clusters-Builds ps (before ++ ids) spec.clusters s3 h3)
                    (λ rest more s4 e4 h4.
                      built before all_names _ (ids ++ more) s4
                        (join_names (m.provider_vm_id ∷ []) (cluster_names rest) ids more e3 e4)
                        (h4 ∙ append_assoc before ids more)))))

  -- An environment that is made has exactly the machines that were started for it: they stand in its
  -- result in the order in which they were started, the workstation first, under their numbers.
  pub create_environment-starts :
      (ps : Profiles) (spec : EnvironmentSpec) (s : Wire) (result : EnvironmentResult)
      → (create_environment r ps spec s).0 ≡ done result
      → (ids : List ℤ) × (all_names result ≡ map decimal_ℤ ids)
        × (picked starts (create_environment r ps spec s).1.sent ≡ picked starts s.sent ++ ids)
  create_environment-starts ps spec s result e =
      (environment-Builds ps (picked starts s.sent) spec s refl).holds result e
