-- ===== src/Proxmox/Wire.antt =====
-- internal/provider/proxmox/client.go: the requests to the API, the replies, and the errors.
use painkiller.Prelude.{
  ℕ, ℤ, ◌+◌, leb, Bool, ◌&&◌, ◌||◌, Option, none, some, List, [], ◌∷◌, ◌++◌, ⊤, if◌then◌else◌, Text,
  codes, contains, map,
}
use painkiller.Json.{Json}

-- The calls of `doRequest` and `doFormRequest`: a method, a path and a body each.
pub data Request : Type 0 where
  -- GET /nodes/{node}/tasks/{upid}/status
  task_status : Text → Text → Request
  -- GET /cluster/nextid
  next_id : Request
  -- POST /nodes/{node}/qemu/{template}/clone with newid, name, full, and the storage where it is full
  clone : ℤ → ℤ → Text → Option Text → Request
  -- PUT /nodes/{node}/qemu/{id}/config
  configure : ℤ → List (Text × Text) → Request
  -- POST /nodes/{node}/qemu/{id}/status/start and …/stop
  start stop : ℤ → Request
  -- DELETE /nodes/{node}/qemu/{id}
  delete : ℤ → Request
  -- GET /nodes/{node}/qemu/{id}/status/current
  current_status : ℤ → Request
  -- GET /nodes/{node}/qemu/{id}/agent/network-get-interfaces
  network_interfaces : ℤ → Request

-- A body, and the value that encoding/json reads in it.
pub record Body : Type 0 where
  pub text : Text
  pub json : Option Json

-- What `http.Do` and `io.ReadAll` give: an error with its message, or a status and a body.
pub data Reply : Type 0 where
  unreachable : Text → Reply
  replied : ℕ → Body → Reply

-- The server of the API, the clock and the context, by the number of the call.
pub record Remote : Type 0 where
  -- `Config.Node`, `Config.StoragePool`
  pub node : Text
  pub storage_pool : Text
  pub reply : ℕ → Request → Reply
  -- How many nanoseconds pass in a call, beyond what it waits for.
  pub latency : ℕ → ℕ
  -- `ctx.Done()` comes before the timer.
  pub cancelled : ℕ → Bool

pub record Wire : Type 0 where
  -- The monotonic clock, in nanoseconds.
  pub now : ℕ
  pub calls : ℕ
  -- The requests that were sent, the latest last.
  pub sent : List Request

-- The errors of the client: `APIError` with its body, and errors known by their message.
pub data Fault : Type 0 where
  api_error : ℕ → Text → Fault
  message : Text → Fault
  wrap : Text → Fault → Fault

-- `strings.ToLower` on ASCII; the texts sought are ASCII.
abbrev pub lower : ℕ → ℕ
lower c = if leb b'A' c && leb c b'Z' then c + 32 else c

-- `messageLooksLikeVMIDConflict`
unfoldable pub message_looks_like_vmid_conflict : Text → Bool
message_looks_like_vmid_conflict m =
    let text = map lower m in
    contains (codes "already exists") text
    || (contains (codes "vmid") text && contains (codes "exists") text)

-- `errors.As(err, &apiErr)`: the body of the first `APIError` in the chain.
abbrev pub api_body : Fault → Option Text
api_body (api_error status body) = some body
api_body (message m) = none
api_body (wrap context e) = api_body e

-- `err.Error()` of an error without an `APIError` in its chain.
abbrev pub error_text : Fault → Text
error_text (api_error status body) = body
error_text (message m) = m
error_text (wrap context e) = context ++ codes ": " ++ error_text e

-- `isVMIDConflict`
unfoldable pub is_vmid_conflict : Fault → Bool
is_vmid_conflict e = elim (api_body e) [
  | some body ↦ message_looks_like_vmid_conflict body
  | none ↦ message_looks_like_vmid_conflict (error_text e)
]

pub data Outcome (A : Type 0) : Type 0 where
  done : A → Outcome A
  failed : Fault → Outcome A

abbrev pub Call : Type 0 → Type 0
Call A = Wire → Outcome A × Wire

module _ {A : Type 0} where
  abbrev pub pure : A → Call A
  pure a s = (done a, s)

  abbrev pub raise : Fault → Call A
  raise e s = (failed e, s)

  -- `fmt.Errorf("context: %w", err)`
  abbrev pub wrapped : Text → Outcome A × Wire → Outcome A × Wire
  wrapped context (done a, s) = (done a, s)
  wrapped context (failed e, s) = (failed (wrap context e), s)

  abbrev pub or_wrap : Call A → Text → Call A
  or_wrap m context s = wrapped context (m s)

  -- `_ = call()`
  abbrev pub ignore : Call A → Call ⊤
  ignore m s = (done tt, (m s).1)

  -- A value that was decoded, or the error of the decoder.
  abbrev pub or_raise : Option A → Fault → Call A
  or_raise none e = raise e
  or_raise (some a) e = pure a

abbrev pub and_then : {A B : Type 0} → Outcome A × Wire → (A → Call B) → Outcome B × Wire
and_then (done a, s) f = f a s
and_then (failed e, s) f = (failed e, s)

infixl 5 ◌>>=◌ ◌>>◌
abbrev pub ◌>>=◌ : {A B : Type 0} → Call A → (A → Call B) → Call B
◌>>=◌ m f s = and_then (m s) f

abbrev pub ◌>>◌ : {A B : Type 0} → Call A → Call B → Call B
m >> k = m >>= λ _. k

abbrev pub second : ℕ
second = 1000000000

module _ (r : Remote) where
  abbrev pub after_call : Request → Wire → Wire
  after_call q s = record {
    now = s.now + r.latency s.calls;
    calls = s.calls + 1;
    sent = s.sent ++ q ∷ [];
  }

  abbrev pub outcome : Reply → Outcome Body
  outcome (unreachable m) = failed (message m)
  outcome (replied status body) =
      if leb 400 status then failed (api_error status body.text) else done body

  -- `doRequest` and `doFormRequest`
  unfoldable pub do_request : Request → Call Body
  do_request q s = (outcome (r.reply s.calls q), after_call q s)

  -- `select` on the context and on a timer.
  unfoldable pub wait : ℕ → Call ⊤
  wait duration s =
      let later = record s { now = s.now + duration + r.latency s.calls; calls = s.calls + 1 } in
      (if r.cancelled s.calls then failed (message (codes "context canceled")) else done tt, later)
