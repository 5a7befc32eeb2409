-- ===== src/Proxmox/Quiet.antt =====
-- What the calls of the client send beyond what they are made for.
use painkiller.Prelude.{ℕ, zero, suc, ℤ, ◌≡◌, Bool, Option, none, some, List, ⊤, Text, is_empty}
use painkiller.Proxmox.Wire.{
  Request, task_status, next_id, clone, stop, network_interfaces, Remote, Wire, Fault,
  is_vmid_conflict, Outcome, done, failed, Call,
}
use painkiller.Proxmox.Client.{
  wait_for_body, wait_on, poll, wait_for_task, next_vmid, clone_vm_with_id, clone_attempts,
  clone_vm, stop_vm, upid_node, conflict_or,
}
use painkiller.Proxmox.Guests.{get_vm_ip_address}
use painkiller.Proxmox.Machines.{wait_ip, wait_for_ip, ip_turn}
use painkiller.Proxmox.Sent.{picked, Leaves, sending, plain-Leaves, either-Leaves}

module _ (pick : Request → Option ℤ) (before : List ℤ) (r : Remote) where
  module _ (polls : (node upid : Text) → pick (task_status node upid) ≡ none) where
    poll-Leaves :
        (node upid : Text) (deadline fuel : ℕ) (s : Wire)
        → picked pick s.sent ≡ before
        → Leaves pick before (poll r node upid deadline fuel s)
    unfolding poll
    poll-Leaves node upid deadline zero s h = plain-Leaves pick before _ s h
    poll-Leaves node upid deadline (suc fuel) s h =
        let again = poll-Leaves node upid deadline fuel in
        search (sending, polls, again) depth 12 fits 20000

    wait_on-Leaves :
        (upid : Text) (node : Option Text) (s : Wire)
        → picked pick s.sent ≡ before
        → Leaves pick before (wait_on r upid node s)
    wait_on-Leaves upid none s h = plain-Leaves pick before _ s h
    wait_on-Leaves upid (some node) s h = poll-Leaves node upid _ _ s h

    pub wait_for_task-Leaves :
        (upid : Text) (s : Wire)
        → picked pick s.sent ≡ before
        → Leaves pick before (wait_for_task r upid s)
    unfolding wait_for_task
    wait_for_task-Leaves upid s h = wait_on-Leaves upid (upid_node upid) s h

    pub wait_for_body-Leaves :
        (upid : Option Text) (s : Wire)
        → picked pick s.sent ≡ before
        → Leaves pick before (wait_for_body r upid s)
    wait_for_body-Leaves none s h = plain-Leaves pick before _ s h
    wait_for_body-Leaves (some upid) s h = search (sending, wait_for_task-Leaves) depth 8 fits 20000

    pub stop_vm-Leaves :
        (v : ℤ) (s : Wire)
        → pick (stop v) ≡ none
        → picked pick s.sent ≡ before
        → Leaves pick before (stop_vm r v s)
    unfolding stop_vm
    stop_vm-Leaves v s e h = search (sending, wait_for_body-Leaves) depth 12 fits 20000

    clone_one-Leaves :
        (t v : ℤ) (n : Text) (full : Bool) (s : Wire)
        → ((o : Option Text) → pick (clone t v n o) ≡ none)
        → picked pick s.sent ≡ before
        → Leaves pick before (clone_vm_with_id r t v n full s)
    unfolding clone_vm_with_id
    clone_one-Leaves t v n full s e h = search (sending, wait_for_task-Leaves) depth 12 fits 20000

  next_vmid-Leaves :
      (s : Wire)
      → pick next_id ≡ none
      → picked pick s.sent ≡ before
      → Leaves pick before (next_vmid r s)
  unfolding next_vmid
  next_vmid-Leaves s e h = search sending depth 12 fits 20000

  pub ip-Leaves :
      (v : ℤ) (s : Wire)
      → pick (network_interfaces v) ≡ none
      → picked pick s.sent ≡ before
      → Leaves pick before (get_vm_ip_address r v s)
  unfolding get_vm_ip_address
  ip-Leaves v s e h = search sending depth 12 fits 20000

  ip_turn-Leaves :
      (o : Outcome Text × Wire) (again : Call Text)
      → Leaves pick before o
      → ((s : Wire) → picked pick s.sent ≡ before → Leaves pick before (again s))
      → Leaves pick before (ip_turn o again)
  ip_turn-Leaves (done ip, s) again h k =
      either-Leaves pick before (is_empty ip) _ _ (k s h.holds)
        (plain-Leaves pick before _ s h.holds)
  ip_turn-Leaves (failed e, s) again h k = k s h.holds

  conflict_or-Leaves :
      (v : ℤ) (o : Outcome ⊤ × Wire) (again : Fault → Call ℤ)
      → Leaves pick before o
      → ((e : Fault) (s : Wire) → picked pick s.sent ≡ before → Leaves pick before (again e s))
      → Leaves pick before (conflict_or v o again)
  conflict_or-Leaves v (done _, s) again h k = plain-Leaves pick before _ s h.holds
  conflict_or-Leaves v (failed e, s) again h k =
      either-Leaves pick before (is_vmid_conflict e) _ _ (k e s h.holds)
        (plain-Leaves pick before _ s h.holds)

  wait_ip-Leaves :
      (v : ℤ) (deadline fuel : ℕ) (s : Wire)
      → pick (network_interfaces v) ≡ none
      → picked pick s.sent ≡ before
      → Leaves pick before (wait_ip r v deadline fuel s)
  unfolding wait_ip
  wait_ip-Leaves v deadline zero s e h = plain-Leaves pick before _ s h
  wait_ip-Leaves v deadline (suc fuel) s e h =
      let again : (s : Wire)
          → picked pick s.sent ≡ before
          → Leaves pick before (wait_ip r v deadline fuel s) =
        λ s h. wait_ip-Leaves v deadline fuel s e h in
      search (sending, ip-Leaves, ip_turn-Leaves, again) depth 12 fits 20000

  pub wait_for_ip-Leaves :
      (v : ℤ) (s : Wire)
      → pick (network_interfaces v) ≡ none
      → picked pick s.sent ≡ before
      → Leaves pick before (wait_for_ip r v s)
  unfolding wait_for_ip
  wait_for_ip-Leaves v s e h = wait_ip-Leaves v _ _ s e h

  clone_attempts-Leaves :
      (polls : (node upid : Text) → pick (task_status node upid) ≡ none) (ids : pick next_id ≡ none)
      (t : ℤ) (n : Text) (full : Bool)
      (clones : (v : ℤ) (o : Option Text) → pick (clone t v n o) ≡ none) (left : ℕ) (e : Fault)
      (s : Wire)
      → picked pick s.sent ≡ before
      → Leaves pick before (clone_attempts r t n full left e s)
  unfolding clone_attempts
  clone_attempts-Leaves polls ids t n full clones zero e s h = plain-Leaves pick before _ s h
  clone_attempts-Leaves polls ids t n full clones (suc left) e s h =
      let again = clone_attempts-Leaves polls ids t n full clones left in
      let one : (v : ℤ) (s : Wire)
          → picked pick s.sent ≡ before
          → Leaves pick before (clone_vm_with_id r t v n full s) =
        λ v s h. clone_one-Leaves polls t v n full s (clones v) h in
      search (sending, conflict_or-Leaves, next_vmid-Leaves, one, again, ids) depth 12 fits 20000

  pub clone_vm-Leaves :
      (polls : (node upid : Text) → pick (task_status node upid) ≡ none) (ids : pick next_id ≡ none)
      (t : ℤ) (n : Text) (full : Bool)
      (clones : (v : ℤ) (o : Option Text) → pick (clone t v n o) ≡ none) (s : Wire)
      → picked pick s.sent ≡ before
      → Leaves pick before (clone_vm r t n full s)
  unfolding clone_vm
  clone_vm-Leaves polls ids t n full clones s h =
      clone_attempts-Leaves polls ids t n full clones _ _ s h
