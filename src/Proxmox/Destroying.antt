-- ===== src/Proxmox/Destroying.antt =====
-- Which machines the destruction of an environment deletes.
use painkiller.Prelude.{
  ℕ, ℤ, pos, ◌≡◌, refl, sym, ap, ◌∙◌, ltb_ℤ, Bool, true, false, Option, none, some, List, [], ◌∷◌,
  ◌++◌, ⊤, Text, if◌then◌else◌, arith, append-nil, append_assoc, is_empty, text_eq,
}
use painkiller.Proxmox.Wire.{
  Request, delete, Remote, Wire, Fault, Outcome, done, failed, Call, pure, ignore, or_raise,
  and_then, ◌>>=◌, ◌>>◌, do_request,
}
use painkiller.Prelude.{decimal_ℤ, map}
use painkiller.Proxmox.Client.{stop_vm, delete_vm}
use painkiller.Provider.{VmResult, ClusterResult, EnvironmentResult}
use painkiller.Proxmox.Sent.{picked, picked-some, Leaves, and_then-Leaves}
use painkiller.Proxmox.Quiet.{stop_vm-Leaves}
use painkiller.Prelude.{◌<◌, ◌^◌, sscan_int, sscan-decimal, All}
use mathlib.Core.Path.{subst}
use painkiller.Json.{decode_struct, decode_members, Json, Items, decode_text}
use painkiller.Proxmox.Machines.{
  destroy_vm, destroy_vms, destroy_environment, decode_metadata, Metadata,
}
use painkiller.Proxmox.Guests.{decode_list, decode_items}
use painkiller.Orchestrator.Spec.{metadata_of, node_vm_ids, vm_ids}
use painkiller.Proxmox.Creating.{cluster_names, node_names}

-- The requests that delete a machine.
abbrev pub deletes : Request → Option ℤ
deletes (delete v) = some v
deletes _ = none

-- The machine that a text in the metadata names, where it names one.
abbrev pub machine_of : Text → List ℤ
machine_of t = let v = sscan_int t in if ltb_ℤ (pos 0) v then v ∷ [] else []

abbrev pub machines_of : List Text → List ℤ
machines_of [] = []
machines_of (t ∷ ts) = machine_of t ++ machines_of ts

-- What the two calls on one machine send, whatever they answer.
ignored-Leaves :
    {A : Type 0} (before : List ℤ) (m : Call A) (s : Wire)
    → Leaves deletes before (m s)
    → Leaves deletes before (ignore m s)
ignored-Leaves before m s h = record { holds = h.holds }

module _ (r : Remote) where
  delete_vm-sends :
      (v : ℤ) (s : Wire) → picked deletes (delete_vm r v s).1.sent ≡ picked deletes s.sent ++ v ∷ []
  unfolding delete_vm do_request
  delete_vm-sends v s =
      (and_then-Leaves deletes (picked deletes s.sent ++ v ∷ []) (do_request r (delete v) s)
        (λ _. pure tt) (record { holds = picked-some deletes s.sent (delete v) v refl })
        (λ b s' h. record { holds = h })).holds

  -- The call ends well on every wire, and deletes these machines.
  abbrev Deletes : Call ⊤ → List ℤ → Type 0
  Deletes m vs =
      (s : Wire) → ((m s).0 ≡ done tt) × (picked deletes (m s).1.sent ≡ picked deletes s.sent ++ vs)

  then-Deletes :
      (before vs ws : List ℤ) (o : Outcome ⊤ × Wire) (k : Call ⊤)
      → o.0 ≡ done tt
      → picked deletes o.1.sent ≡ before ++ vs
      → Deletes k ws
      → ((and_then o (λ _. k)).0 ≡ done tt)
        × (picked deletes (and_then o (λ _. k)).1.sent ≡ before ++ (vs ++ ws))
  then-Deletes before vs ws (done _, s) k e h after =
      let (fine, sent) = after s in (fine, sent ∙ ap (λ t. t ++ ws) h ∙ append_assoc before vs ws)
  then-Deletes before vs ws (failed f, s) k e h after = cc

  idle : Deletes (pure tt) []
  idle s = (refl, sym (append-nil (picked deletes s.sent)))

  destroy_if :
      (b : Bool) (v : ℤ)
      → Deletes
          (if b then (ignore (stop_vm r v) >> ignore (delete_vm r v)) else pure tt)
          (if b then v ∷ [] else [])
  destroy_if true v s = (
    refl,
    delete_vm-sends v (stop_vm r v s).1
        ∙ ap (λ t. t ++ v ∷ [])
            (stop_vm-Leaves deletes (picked deletes s.sent) r (λ n u. refl) v s refl refl).holds,
  )
  destroy_if false v s = idle s

  destroy_vm-Deletes : (t : Text) → Deletes (destroy_vm r t) (machine_of t)
  unfolding destroy_vm
  destroy_vm-Deletes t = destroy_if (ltb_ℤ (pos 0) (sscan_int t)) (sscan_int t)

  destroy_vms-Deletes : (ts : List Text) → Deletes (destroy_vms r ts) (machines_of ts)
  unfolding destroy_vms
  destroy_vms-Deletes [] s = idle s
  destroy_vms-Deletes (t ∷ ts) s =
      let (fine, sent) = destroy_vm-Deletes t s in
      then-Deletes (picked deletes s.sent) (machine_of t) (machines_of ts) (destroy_vm r t s)
        (destroy_vms r ts) fine sent (destroy_vms-Deletes ts)

  workstation-Deletes :
      (t : Text) → Deletes (if is_empty t then pure tt else destroy_vm r t) (machine_of t)
  unfolding sscan_int
  workstation-Deletes [] = idle
  workstation-Deletes (c ∷ t) = destroy_vm-Deletes (c ∷ t)

  found-Deletes :
      (o : Option Metadata) (m : Metadata) (f : Fault) (k : Metadata → Call ⊤) (vs : List ℤ)
      → o ≡ some m
      → Deletes (k m) vs
      → Deletes (or_raise o f >>= k) vs
  found-Deletes none m f k vs e h = cc
  found-Deletes (some n) m f k vs e h =
      let same : n ≡ m = cc in subst (λ x. Deletes (k x) vs) (sym same) h

  -- Whatever the calls answer, the destruction ends well, and it deletes every machine that the
  -- metadata names by a positive number, and no other: the nodes in their order, and then the
  -- workstation.
  pub destroy_environment-deletes :
      (j : Json) (m : Metadata) (s : Wire)
      → decode_metadata j ≡ some m
      → ((destroy_environment r j s).0 ≡ done tt)
        × (picked deletes (destroy_environment r j s).1.sent
            ≡ picked deletes s.sent ++ (machines_of m.node_vmids ++ machine_of m.workstation_vmid))
  unfolding destroy_environment
  destroy_environment-deletes j m s e =
      found-Deletes (decode_metadata j) m _ _ _ e
        (λ s'.
          let (fine, sent) = destroy_vms-Deletes m.node_vmids s' in
          then-Deletes (picked deletes s'.sent) _ _ (destroy_vms r m.node_vmids s') _ fine sent
            (workstation-Deletes m.workstation_vmid))
        s

-- The metadata of a result, as the destruction reads it.
append_ids :
    (ns : List VmResult) (rest : Items) (ts : List Text)
    → decode_items (decode_text []) rest ≡ some ts
    → decode_items (decode_text []) (vm_ids ns rest) ≡ some (node_names ns ++ ts)
unfolding decode_items vm_ids
append_ids [] rest ts h = h
append_ids (n ∷ ns) rest ts h = ground (arith, append_ids ns rest ts h)

cluster_ids :
    (cs : List ClusterResult)
    → decode_items (decode_text []) (node_vm_ids cs) ≡ some (cluster_names cs)
unfolding decode_items node_vm_ids
cluster_ids [] = refl
cluster_ids (c ∷ cs) = append_ids c.nodes (node_vm_ids cs) (cluster_names cs) (cluster_ids cs)

pub decode-metadata_of :
    (result : EnvironmentResult)
    → decode_metadata (metadata_of result)
      ≡ some (record {
        workstation_vmid = result.workstation.provider_vm_id;
        node_vmids = cluster_names result.clusters;
      })
unfolding metadata_of decode_list decode_struct decode_members text_eq
decode-metadata_of result = ground (arith, cluster_ids result.clusters)

-- A number that a machine can have.
abbrev pub IsVmid : ℤ → Type 0
IsVmid v = (n : ℕ) × (v ≡ pos n) × (0 < n) × (n < 2 ^ 63)

pub machine_of-decimal : (v : ℤ) → IsVmid v → machine_of (decimal_ℤ v) ≡ v ∷ []
machine_of-decimal v (n, e, positive, small) =
    subst (λ x. machine_of (decimal_ℤ x) ≡ x ∷ []) (sym e) (ground (arith, sscan-decimal n small))

pub machines_of-decimal : (ids : List ℤ) → All IsVmid ids → machines_of (map decimal_ℤ ids) ≡ ids
machines_of-decimal [] h = refl
machines_of-decimal (v ∷ ids) (h, hs) =
    ap (λ t. t ++ machines_of (map decimal_ℤ ids)) (machine_of-decimal v h)
    ∙ ap (λ t. v ∷ t) (machines_of-decimal ids hs)

pub cancel_front : (front xs ys : List ℤ) → front ++ xs ≡ front ++ ys → xs ≡ ys
cancel_front [] xs ys h = h
cancel_front (v ∷ front) xs ys h = cancel_front front xs ys cc
