-- ===== src/Proxmox/Client.antt =====
-- internal/provider/proxmox/client.go: the calls of the API that make, start, stop and delete
-- virtual machines.
-- The decoder's own message is left out of the errors.
use painkiller.Prelude.{
  ℕ, zero, suc, ℤ, pos, ◌+◌, ◌*◌, ltb, Bool, Option, none, some, List, [], ◌∷◌, ◌++◌, ⊤,
  if◌then◌else◌, ◌==◌, Text, codes, text_eq, is_empty, atoi,
}
use mathlib.Core.Option
use painkiller.Json.{Json, null, str, num, names, decode_text, decode_struct}
use painkiller.Proxmox.Wire.{
  task_status, next_id, clone, configure, start, stop, delete, current_status, Body, Remote, Wire,
  Fault, message, wrap, is_vmid_conflict, Outcome, done, failed, Call, pure, raise, or_wrap,
  or_raise, ◌>>=◌, ◌>>◌, second, do_request, wait,
}

-- The text before the first colon, and the text after it.
unfoldable pub cut_colon : Text → Option (Text × Text)
cut_colon [] = none
cut_colon (c ∷ s) =
    let rest = cut_colon s in
    if c == 58 then some ([], s) else Option.map (λ p. (c ∷ p.0, p.1)) rest

abbrev before_colon : Option (Text × Text) → Text → Text
before_colon none s = s
before_colon (some (t, _)) s = t

-- `strings.Split(upid, ":")[1]`, where there are two parts.
abbrev pub upid_node : Text → Option Text
upid_node upid = Option.map (λ p. before_colon (cut_colon p.1) p.1) (cut_colon upid)

-- A member of a struct under its tag; other members are skipped.
abbrev pub member : {A : Type 0} → Text → (Json → A → Option A) → Text → Json → A → Option A
member tag decode key j a = if names key tag then decode j a else some a

-- `{"data": "<text>"}`
abbrev pub decode_data : Json → Option Text
decode_data = decode_struct (member (codes "data") (λ j t. decode_text t j)) []

pub record TaskStatus : Type 0 where
  pub status : Text
  pub exit_code : Text

abbrev decode_task_member : Text → Json → TaskStatus → Option TaskStatus
decode_task_member key j t =
    if names key (codes "status")
    then Option.map (λ s. record t { status = s }) (decode_text t.status j)
    else if names key (codes "exitstatus")
    then Option.map (λ s. record t { exit_code = s }) (decode_text t.exit_code j)
    else some t

-- `{"data": {"status": …, "exitstatus": …}}`
abbrev pub decode_task : Json → Option TaskStatus
decode_task =
    decode_struct (member (codes "data") (λ j t. decode_struct decode_task_member t j))
      (record { status = []; exit_code = [] })

-- The bytes of `data`, or none.
abbrev decode_raw_data : Json → Option (Option Json)
decode_raw_data = decode_struct (member (codes "data") (λ j _. some (some j))) none

-- The number in `data`: a number, null for 0, or a string with a number in it.
abbrev pub vmid_of : Option Json → Option ℤ
vmid_of (some (num n)) = some n
vmid_of (some null) = some (pos 0)
vmid_of (some (str t)) = atoi t
vmid_of _ = none

-- `{"data": {"status": …}}`
abbrev pub decode_current : Json → Option Text
decode_current =
    decode_struct
      (member (codes "data")
        (λ j t. decode_struct (member (codes "status") (λ k u. decode_text u k)) t j))
      []

abbrev pub decoded : {A : Type 0} → (Json → Option A) → Body → Option A
decoded decode b = Option.bind b.json decode

abbrev pub poll_interval : ℕ
poll_interval = 2 * second

abbrev pub poll_timeout : ℕ
poll_timeout = 300 * second

-- A turn of the loop waits two seconds at least, so that 150 turns reach the deadline.
abbrev pub poll_turns : ℕ
poll_turns = 150

abbrev pub clone_vmid_attempts : ℕ
clone_vmid_attempts = 5

abbrev timed_out : Text → Fault
timed_out upid = message (codes "timed out waiting for task " ++ upid)

-- What a turn of `CloneVM`'s loop makes of the result of `cloneVMWithID`.
abbrev pub conflict_or : ℤ → Outcome ⊤ × Wire → (Fault → Call ℤ) → Outcome ℤ × Wire
conflict_or vmid (done _, s) again = (done vmid, s)
conflict_or vmid (failed e, s) again = if is_vmid_conflict e then again e s else (failed e, s)

module _ (r : Remote) where
  -- A turn of `waitForTask`'s loop, `again` being what follows a task that still runs.
  abbrev pub poll_status : Call ⊤ → TaskStatus → Call ⊤
  poll_status again task =
      if text_eq task.status (codes "stopped")
      then (if text_eq task.exit_code (codes "OK")
          then pure tt
          else raise (message (codes "task failed with exit status: " ++ task.exit_code)))
      else again

  abbrev pub poll_body : Call ⊤ → Body → Call ⊤
  poll_body again body = do
    task ← or_raise (decoded decode_task body) (message (codes "failed to parse task status"))
    poll_status again task

  abbrev pub poll_request : Text → Text → Call Body
  poll_request node upid =
      or_wrap (do_request r (task_status node upid)) (codes "failed to poll task status")

  module _ (node upid : Text) (deadline : ℕ) where
    -- The loop of `waitForTask`. Out of fuel it ends as it does after the deadline.
    unfoldable pub poll : ℕ → Call ⊤
    poll zero s = raise (timed_out upid) s
    poll (suc fuel) s =
        if ltb s.now deadline
        then (poll_request node upid >>= poll_body (wait r poll_interval >> poll fuel)) s
        else raise (timed_out upid) s

  abbrev pub wait_on : Text → Option Text → Call ⊤
  wait_on upid none s = raise (message (codes "invalid UPID: " ++ upid)) s
  wait_on upid (some node) s = poll node upid (s.now + poll_timeout) poll_turns s

  unfoldable pub wait_for_task : Text → Call ⊤
  wait_for_task upid = wait_on upid (upid_node upid)

  unfoldable pub next_vmid : Call ℤ
  next_vmid = do
    body ← do_request r next_id
    data' ←
        or_raise (decoded decode_raw_data body)
          (message (codes "failed to parse next VMID response"))
    or_raise (vmid_of data') (message (codes "failed to parse next VMID value"))

  abbrev clone_storage : Bool → Option Text
  clone_storage full = if full then some r.storage_pool else none

  unfoldable pub clone_vm_with_id : ℤ → ℤ → Text → Bool → Call ⊤
  clone_vm_with_id template new_vmid name full = do
    body ← do_request r (clone template new_vmid name (clone_storage full))
    upid ← or_raise (decoded decode_data body) (message (codes "failed to parse clone response"))
    if is_empty upid
        then raise (message (codes "missing clone task UPID"))
        else or_wrap (wait_for_task upid) (codes "clone task failed")

  module _ (template : ℤ) (name : Text) (full : Bool) where
    abbrev clone_turn : ℤ → (Fault → Call ℤ) → Call ℤ
    clone_turn vmid again s = conflict_or vmid (clone_vm_with_id template vmid name full s) again

    -- The loop of `CloneVM`, with `lastErr`.
    unfoldable pub clone_attempts : ℕ → Fault → Call ℤ
    clone_attempts zero last s =
        raise (wrap (codes "failed to clone VM after 5 VMID allocation attempts") last) s
    clone_attempts (suc left) last s =
        (do
          vmid ← or_wrap next_vmid (codes "failed to get next VMID")
          clone_turn vmid (clone_attempts left))
          s

    -- `lastErr` is nil at first, and is read after five conflicts only.
    unfoldable pub clone_vm : Call ℤ
    clone_vm = clone_attempts clone_vmid_attempts (message [])

  unfoldable pub configure_vm : ℤ → List (Text × Text) → Call ⊤
  configure_vm vmid config = do_request r (configure vmid config) >> pure tt

  -- A body that does not parse, or has no task in it, is no error.
  abbrev pub wait_for_body : Option Text → Call ⊤
  wait_for_body none = pure tt
  wait_for_body (some upid) = if is_empty upid then pure tt else wait_for_task upid

  unfoldable pub start_vm : ℤ → Call ⊤
  start_vm vmid = do body ← do_request r (start vmid); wait_for_body (decoded decode_data body)

  unfoldable pub stop_vm : ℤ → Call ⊤
  stop_vm vmid = do body ← do_request r (stop vmid); wait_for_body (decoded decode_data body)

  unfoldable pub delete_vm : ℤ → Call ⊤
  delete_vm vmid = do_request r (delete vmid) >> pure tt

  unfoldable pub get_vm_status : ℤ → Call Text
  get_vm_status vmid = do
    body ← do_request r (current_status vmid)
    or_raise (decoded decode_current body) (message (codes "json"))
