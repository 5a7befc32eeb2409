-- ===== src/Jobs/Worker.antt =====
-- internal/jobs/worker.go: the handlers by kind, and the work on one job.
use painkiller.Prelude.{ℕ, Option, none, some, List, [], ◌∷◌, ⊤, if◌then◌else◌, ◌==◌}
use painkiller.Models.{
  JobKind, provision_environment, grade_attempt, cleanup_environment, expire_attempt,
}
use painkiller.Store.{Action, Payload, Job, pure}

-- The place of a kind among the constants: the map's keys are compared as texts.
abbrev index : JobKind → ℕ
index provision_environment = 0
index grade_attempt = 1
index cleanup_environment = 2
index expire_attempt = 3

abbrev pub HandlerFunc : Type 0
HandlerFunc = Payload → Action ⊤

-- `map[JobKind]HandlerFunc`
abbrev pub Handlers : Type 0
Handlers = List (JobKind × HandlerFunc)

-- `w.handlers[kind] = handler`: the last registration counts.
unfoldable pub register_handler : JobKind → HandlerFunc → Handlers → Handlers
register_handler kind handler handlers = (kind, handler) ∷ handlers

unfoldable pub handler_of : JobKind → Handlers → Option HandlerFunc
handler_of kind [] = none
handler_of kind ((k, f) ∷ rest) = if index k == index kind then some f else handler_of kind rest

-- A job of a kind without a handler is logged and done.
abbrev run : Option HandlerFunc → Payload → Action ⊤
run none payload = pure tt
run (some f) payload = f payload

unfoldable pub work : Handlers → Job → Action ⊤
work handlers job = run (handler_of job.kind handlers) job.payload
