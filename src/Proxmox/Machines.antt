-- ===== src/Proxmox/Machines.antt =====
-- internal/provider/proxmox/provider.go: environments of virtual machines.
use painkiller.Prelude.{
  ℕ, zero, suc, ◌+◌, ◌*◌, ltb, ℤ, pos, ltb_ℤ, Bool, true, false, Option, none, some, List, [], ◌∷◌,
  ◌++◌, ⊤, if◌then◌else◌, Text, codes, text_eq, is_empty, decimal_ℤ, sscan_int, map,
}
use mathlib.Core.Option
use painkiller.Json.{Json, names, decode_text, decode_struct}
use painkiller.Provider.{
  VmRequest, VmResult, ClusterRequest, EnvironmentSpec, ClusterResult, EnvironmentResult,
}
use painkiller.Proxmox.Placeholders.{render_profile_value}
use painkiller.Proxmox.Wire.{
  Remote, Wire, Fault, message, Outcome, done, failed, Call, pure, raise, or_wrap, ignore, or_raise,
  ◌>>=◌, ◌>>◌, second, wait,
}
use painkiller.Proxmox.Client.{clone_vm, configure_vm, start_vm, stop_vm, delete_vm, get_vm_status}
use painkiller.Proxmox.Guests.{get_vm_ip_address, decode_list}

pub record CloneProfile : Type 0 where
  pub template_vmid : ℤ
  pub clone_mode : Text
  pub config : List (Text × Text)

-- `Config.Profiles` by name.
abbrev pub Profiles : Type 0
Profiles = List (Text × CloneProfile)

unfoldable pub profile_for : Profiles → Text → Option CloneProfile
profile_for [] template = none
profile_for ((name, p) ∷ ps) template =
    if text_eq name template then some p else profile_for ps template

abbrev or_empty : Option Text → Text
or_empty none = []
or_empty (some t) = t

-- `none`, out of fuel, counts as empty.
abbrev rendered : Text → VmRequest → Text
rendered value vm = or_empty (render_profile_value vm.ssh_public_key vm.hostname value)

unfoldable pub render_profile_config : CloneProfile → VmRequest → List (Text × Text)
render_profile_config profile vm = map (λ e. (e.0, rendered e.1 vm)) profile.config

abbrev pub ip_poll_interval : ℕ
ip_poll_interval = 5 * second

abbrev pub ip_poll_timeout : ℕ
ip_poll_timeout = 120 * second

-- A turn waits five seconds at least, so that 24 turns reach the deadline.
abbrev pub ip_turns : ℕ
ip_turns = 24

abbrev pub no_ip : ℤ → Fault
no_ip vmid = message (codes "timed out waiting for IP on VM " ++ decimal_ℤ vmid)

-- `if err == nil && ip != "" { return ip, nil }`, or what the turn does next.
abbrev pub ip_turn : Outcome Text × Wire → Call Text → Outcome Text × Wire
ip_turn (done ip, s) again = if is_empty ip then again s else (done ip, s)
ip_turn (failed _, s) again = again s

abbrev pub unknown_profile : Text → Fault
unknown_profile template = message (codes "unknown proxmox clone profile: " ++ template)

abbrev is_zero : ℤ → Bool
is_zero (pos zero) = true
is_zero _ = false

abbrev pub raise_unknown : Option Text → Call ⊤
raise_unknown none = pure tt
raise_unknown (some template) = raise (unknown_profile template)

-- The provider's metadata: the workstation's machine and the nodes'.
pub record Metadata : Type 0 where
  pub workstation_vmid : Text
  pub node_vmids : List Text

abbrev decode_metadata_member : Text → Json → Metadata → Option Metadata
decode_metadata_member key j m =
    if names key (codes "workstation_vm_id")
    then Option.map (λ t. record m { workstation_vmid = t }) (decode_text m.workstation_vmid j)
    else if names key (codes "node_vm_ids")
    then Option.map (λ t. record m { node_vmids = t }) (decode_list (decode_text []) j)
    else some m

abbrev pub decode_metadata : Json → Option Metadata
decode_metadata =
    decode_struct decode_metadata_member (record { workstation_vmid = []; node_vmids = [] })

module _ (r : Remote) where
  -- The loop of `waitForIP`. Out of fuel it ends as it does after the deadline.
  unfoldable pub wait_ip : ℤ → ℕ → ℕ → Call Text
  wait_ip vmid deadline zero s = raise (no_ip vmid) s
  wait_ip vmid deadline (suc fuel) s =
      if ltb s.now deadline
      then ip_turn (get_vm_ip_address r vmid s)
          (wait r ip_poll_interval >> wait_ip vmid deadline fuel)
      else raise (no_ip vmid) s

  unfoldable pub wait_for_ip : ℤ → Call Text
  wait_for_ip vmid s = wait_ip vmid (s.now + ip_poll_timeout) ip_turns s

  -- The four calls that make one machine; `what` is named in the errors.
  unfoldable pub build_vm : Text → Text → CloneProfile → VmRequest → Call VmResult
  build_vm what ip_context profile vm = do
    vmid ←
        or_wrap
          (clone_vm r profile.template_vmid vm.hostname (text_eq profile.clone_mode (codes "full")))
          (codes "failed to clone " ++ what)
    or_wrap (configure_vm r vmid (render_profile_config profile vm))
        (codes "failed to configure " ++ what)
    or_wrap (start_vm r vmid) (codes "failed to start " ++ what)
    ip ← or_wrap (wait_for_ip vmid) ip_context
    pure (record { provider_vm_id = decimal_ℤ vmid; ip_address = ip; hostname = vm.hostname })

  module _ (profiles : Profiles) where
    -- The check before anything is made.
    unfoldable pub nodes_known : List VmRequest → Option Text
    nodes_known [] = none
    nodes_known (n ∷ ns) = elim (profile_for profiles n.template) [
      | none ↦ some n.template
      | some _ ↦ nodes_known ns
    ]

    unfoldable pub clusters_known : List ClusterRequest → Option Text
    clusters_known [] = none
    clusters_known (c ∷ cs) = elim (nodes_known c.nodes) [
      | some template ↦ some template
      | none ↦ clusters_known cs
    ]

    unfoldable pub build_node : VmRequest → Call VmResult
    build_node node = do
      profile ← or_raise (profile_for profiles node.template) (unknown_profile node.template)
      build_vm (codes "node " ++ node.hostname)
          (codes "failed to get IP for node " ++ node.hostname) profile node

    unfoldable pub build_nodes : List VmRequest → Call (List VmResult)
    build_nodes [] = pure []
    build_nodes (n ∷ ns) = do vm ← build_node n; rest ← build_nodes ns; pure (vm ∷ rest)

    unfoldable pub build_clusters : List ClusterRequest → Call (List ClusterResult)
    build_clusters [] = pure []
    build_clusters (c ∷ cs) = do
      nodes ← build_nodes c.nodes
      rest ← build_clusters cs
      pure (record { name = c.name; nodes = nodes } ∷ rest)

    unfoldable pub create_environment : EnvironmentSpec → Call EnvironmentResult
    create_environment spec = do
      profile ←
          or_raise (profile_for profiles spec.workstation.template)
            (unknown_profile spec.workstation.template)
      raise_unknown (clusters_known spec.clusters)
      workstation ←
          build_vm (codes "workstation") (codes "failed to get workstation IP") profile
            spec.workstation
      clusters ← build_clusters spec.clusters
      pure (record { workstation = workstation; clusters = clusters })

  -- A text with no positive number in it is passed over; the errors of both calls are dropped.
  unfoldable pub destroy_vm : Text → Call ⊤
  destroy_vm text =
      let vmid = sscan_int text in
      if ltb_ℤ (pos 0) vmid then (ignore (stop_vm r vmid) >> ignore (delete_vm r vmid)) else pure tt

  unfoldable pub destroy_vms : List Text → Call ⊤
  destroy_vms [] = pure tt
  destroy_vms (t ∷ ts) = destroy_vm t >> destroy_vms ts

  unfoldable pub destroy_environment : Json → Call ⊤
  destroy_environment provider_metadata = do
    metadata ←
        or_raise (decode_metadata provider_metadata)
          (message (codes "failed to unmarshal metadata"))
    destroy_vms metadata.node_vmids
    if is_empty metadata.workstation_vmid then pure tt else destroy_vm metadata.workstation_vmid

  -- `GetVMStatus`
  unfoldable pub machine_status : Text → Call Text
  machine_status text =
      let vmid = sscan_int text in
      if is_zero vmid
      then raise (message (codes "invalid VM ID: " ++ text))
      else get_vm_status r vmid
