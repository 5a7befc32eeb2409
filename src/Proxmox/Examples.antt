-- ===== src/Proxmox/Examples.antt =====
-- The theorems on the machines at work: a server on which every call succeeds, and an environment of
-- a workstation and one node.
use painkiller.Prelude.{
  ℕ, ◌+◌, ◌≡◌, ◌↔◌, refl, ℤ, pos, false, some, List, [], ◌∷◌, ◌++◌, Text, codes, text_eq, All,
  arith, decimal, has_prefix, contains, trim_space,
}
use mathlib.Core.Option
use painkiller.Json.{
  Json, nil, cons, null, str, num, arr, obj, field, end, decode_struct, decode_members,
}
use painkiller.Provider.{VmRequest, EnvironmentSpec, EnvironmentResult}
use painkiller.Orchestrator.Spec.{metadata_of}
use painkiller.Proxmox.Placeholders.{
  cut_pair, accepted, validate_remaining, validate_placeholders, render_remaining,
  render_profile_value,
}
use painkiller.Proxmox.Template.{Part, Spells, meaning, accepted_iff, render-accepted}
use painkiller.Proxmox.Wire.{
  Request, task_status, next_id, clone, network_interfaces, replied, Remote, Wire, do_request, wait,
  done,
}
use painkiller.Proxmox.Client.{
  cut_colon, poll, wait_on, wait_for_task, next_vmid, clone_vm_with_id, clone_attempts, clone_vm,
  configure_vm, start_vm, poll_timeout,
}
use painkiller.Proxmox.Guests.{
  decode_interfaces, decode_items, decode_list, first_address, first_ip, get_vm_ip_address,
}
use painkiller.Proxmox.Machines.{
  CloneProfile, Profiles, profile_for, render_profile_config, wait_ip, wait_for_ip, build_vm,
  nodes_known, clusters_known, build_node, build_nodes, build_clusters, create_environment,
  destroy_environment,
}
use painkiller.Proxmox.Profiles.{
  first_error, validate_profile_config, load_profiles, load_clone_profiles,
}
use painkiller.Proxmox.Loaded.{GoodProfile, is_empty_list, load-Good}
use painkiller.Proxmox.Sent.{picked}
use painkiller.Proxmox.Creating.{starts}
use painkiller.Proxmox.Destroying.{deletes}
use painkiller.Proxmox.Lifetime.{destroy-create, create-deletes}
use painkiller.Proxmox.Polling.{wait_for_task-turns}

abbrev data_of : Json → Json
data_of j = obj (field (codes "data") j end)

abbrev guest : Json
guest = data_of (
    obj (
      field (codes "result")
        (arr (
          cons
            (obj (
              field (codes "name") (str (codes "eth0")) (
                field (codes "ip-addresses")
                  (arr (
                    cons
                      (obj (
                        field (codes "ip-address") (str (codes "10.0.0.1"))
                          (field (codes "ip-address-type") (str (codes "ipv4")) end)))
                      nil))
                  end)))
            nil))
        end))

abbrev answer_to : ℕ → Request → Json
answer_to n next_id = data_of (num (pos (100 + n)))
answer_to n (clone _ _ _ _) = data_of (str (codes "UPID:pve:1"))
answer_to n (task_status _ _) = data_of (
    obj (
      field (codes "status") (str (codes "stopped"))
        (field (codes "exitstatus") (str (codes "OK")) end)))
answer_to n (network_interfaces _) = guest
answer_to n _ = data_of null

abbrev lab : Remote
lab = record {
  node = codes "pve";
  storage_pool = codes "ssd";
  reply = λ n q. replied 200 (record { text = []; json = some (answer_to n q) });
  latency = λ _. 1;
  cancelled = λ _. false;
}

abbrev fresh_wire : Wire
fresh_wire = record { now = 0; calls = 0; sent = [] }

abbrev small_profile : CloneProfile
small_profile = record {
  template_vmid = pos 9;
  clone_mode = [];
  config = (codes "name", codes "vm-{{ hostname }}") ∷ [];
}

abbrev lab_profiles : Profiles
lab_profiles = (codes "small", small_profile) ∷ []

abbrev machine : Text → Text → VmRequest
machine name template = record {
  hostname = name;
  role = [];
  template = template;
  network = [];
  ssh_public_key = codes "key";
  cloud_init_data = [];
  tags = [];
}

abbrev spec_with : Text → EnvironmentSpec
spec_with template = record {
  workstation = machine (codes "ws") (codes "small");
  clusters = record { name = codes "c"; nodes = machine (codes "n") template ∷ [] } ∷ [];
}

abbrev made : EnvironmentResult
made = record {
  workstation = record {
    provider_vm_id = codes "100";
    ip_address = codes "10.0.0.1";
    hostname = codes "ws";
  };
  clusters =
      record {
        name = codes "c";
        nodes =
            record {
              provider_vm_id = codes "106";
              ip_address = codes "10.0.0.1";
              hostname = codes "n";
            }
            ∷ [];
      }
      ∷ [];
}

lab_makes :
    (create_environment lab lab_profiles (spec_with (codes "small")) fresh_wire).0 ≡ done made
unfolding create_environment build_clusters build_nodes build_node build_vm clusters_known
    nodes_known profile_for clone_vm clone_attempts clone_vm_with_id next_vmid do_request wait
    wait_for_task poll cut_colon configure_vm start_vm wait_for_ip wait_ip get_vm_ip_address
    decode_interfaces first_ip first_address decode_struct decode_members decode_list decode_items
    text_eq decimal render_profile_config render_profile_value render_remaining cut_pair trim_space
    Option.bind
lab_makes = refl

lab-starts :
    picked starts
      (create_environment lab lab_profiles (spec_with (codes "small")) fresh_wire).1.sent
    ≡ picked starts fresh_wire.sent ++ pos 100 ∷ pos 106 ∷ []
unfolding picked create_environment build_clusters build_nodes build_node build_vm clusters_known
    nodes_known profile_for clone_vm clone_attempts clone_vm_with_id next_vmid do_request wait
    wait_for_task poll cut_colon configure_vm start_vm wait_for_ip wait_ip get_vm_ip_address
    decode_interfaces first_ip first_address decode_struct decode_members decode_list decode_items
    text_eq decimal render_profile_config render_profile_value render_remaining cut_pair trim_space
    Option.bind
lab-starts = refl

destroy-create_example :
    (workstation : ℤ) × (nodes : List ℤ) × (pos 100 ∷ pos 106 ∷ [] ≡ workstation ∷ nodes)
    × (picked deletes (destroy_environment lab (metadata_of made) fresh_wire).1.sent
        ≡ picked deletes fresh_wire.sent ++ (nodes ++ workstation ∷ []))
destroy-create_example =
    destroy-create lab lab_profiles (spec_with (codes "small")) fresh_wire fresh_wire made
      (pos 100 ∷ pos 106 ∷ []) lab_makes lab-starts
      ((100, refl, omega arith, omega arith), ((106, refl, omega arith, omega arith), tt))

create-deletes_example :
    picked deletes
      (create_environment lab lab_profiles (spec_with (codes "small")) fresh_wire).1.sent
    ≡ picked deletes fresh_wire.sent
create-deletes_example = create-deletes lab lab_profiles (spec_with (codes "small")) fresh_wire

wait_for_task-turns_example :
    wait_on lab (codes "UPID:pve:1") (some (codes "pve")) fresh_wire
    ≡ poll lab (codes "pve") (codes "UPID:pve:1") poll_timeout 1000 fresh_wire
wait_for_task-turns_example =
    wait_for_task-turns lab (codes "pve") (codes "UPID:pve:1") 1000 fresh_wire (omega arith)

abbrev template : Text
template = codes "vm-{{ hostname }}"

accepted_iff_example :
    (validate_placeholders template ≡ some accepted) ↔ ((ps : List Part) × Spells template ps)
accepted_iff_example = accepted_iff template

template_accepted : validate_placeholders template ≡ some accepted
unfolding validate_placeholders validate_remaining cut_pair trim_space text_eq
template_accepted = refl

render-accepted_example :
    (ps : List Part) × Spells template ps
    × (render_profile_value (codes "key") (codes "n1") template
        ≡ some (meaning (codes "key") (codes "n1") ps))
render-accepted_example = render-accepted (codes "key") (codes "n1") template template_accepted

abbrev linked_profile : CloneProfile
linked_profile = record small_profile { clone_mode = codes "linked" }

load-Good_example :
    (is_empty_list ((codes "small", linked_profile) ∷ []) ≡ false)
    × All GoodProfile ((codes "small", linked_profile) ∷ [])
unfolding load_clone_profiles load_profiles first_error validate_profile_config
    validate_placeholders validate_remaining cut_pair trim_space text_eq has_prefix contains
load-Good_example = load-Good lab_profiles ((codes "small", linked_profile) ∷ []) refl
