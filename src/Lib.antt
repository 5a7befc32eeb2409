-- ===== src/Lib.antt =====
-- Painkiller sells practical exams: a learner buys a test, asks for an attempt, works in a terminal
-- on machines that are built for the attempt, and is graded by commands that run on them. This
-- library models the Go program that does this and proves what keeps it correct.
--
-- The parts and their files:
--
-- - Prelude: the shared helpers. Tests on native numbers, lists, Go's integers and texts (lists of
--   code points), under the library's names.
-- - Models (internal/models): the rows of the database and their statuses. Json: the values of the
--   JSONB columns. Provider (internal/provider/types.go, internal/provisioner/types.go): what the
--   back ends are asked and answer.
-- - Outside: what the program calls and does not implement, as a record of functions of the number
--   of the call: Postgres and River as calls that may fail, the clock, package uuid, package ssh,
--   and the back ends. A value of it is one history of the outside world.
-- - Store (internal/store): the tables as lists of rows (Store.State.World), and a function for each
--   method: Store/Attempts for attempt_store.go, and so on. Store/Table and Store/Rows hold the
--   lookups, updates and orders that the statements share, Store/Counts the laws of the counter,
--   Store/Removal those of a removal.
-- - Jobs (internal/jobs): the insertion of jobs; Jobs/Worker the dispatch by kind.
-- - Attempts (internal/attempts): StateMachine, its Graph and Paths, and Documented on what
--   docs/architecture.md says of it; Service with request, transition, submission and expiry; Handler
--   with the HTTP handlers.
-- - Scenarios (internal/scenarios): Schema, Validate, and Topology for the way of a topology through
--   the database.
-- - Importer (internal/importer/importer.go): Files from the repository to the parsed scenarios, Rows
--   from them to the database. Tasks, Checks, Offer and Imported are about an import that succeeds,
--   Once about one that fails, Read about the files, and Fresh, Known, Loops and Complete about what
--   an import needs to succeed.
-- - Config (internal/config/config.go): the settings; Checked and Expiry hold proofs. Startup
--   (cmd/server/main.go up to the start, cmd/import-scenarios/main.go): what the settings decide.
--   Migrate (cmd/migrate/main.go): the two sets of migrations.
-- - Grading (internal/grading): Runner runs a check, Engine grades an attempt.
-- - Orchestrator (internal/orchestrator): Spec, Provision, Cleanup and Reconciler; Failure is about a
--   provisioning job that fails, Finishing and Success about one that succeeds. Proxy
--   (internal/proxy): the script for iptables.
-- - Terminal (internal/terminal/gateway.go), Scoring (internal/scoring), Billing (internal/billing),
--   Catalog (internal/catalog), Entitlements (internal/entitlements), Admin (internal/admin): the
--   handlers and services. Admin/Catalog changes tests, Admin/Listing shows them, Admin/Guard is the
--   middleware, Admin/Siblings is about the removal of a test. Http: what handlers answer.
-- - Provider/Mock (internal/provider/mock): environments in a map. Proxmox
--   (internal/provider/proxmox): Placeholders and Profiles for config.go, Wire, Client and Guests for
--   client.go, Machines for provider.go. Its other modules hold proofs: Cut and Template on
--   placeholders, Loaded on profiles, Sent, Quiet, Creating, Destroying and Lifetime on the requests
--   that are sent, Polling on the task loop, Refusal on unknown profiles. Ansible
--   (internal/provisioner/ansible): Inventory for inventory.go, Vars for vars.go.
-- - Auth (internal/auth): registration, login, tokens and the middleware, with bcrypt and jwt as the
--   record Vault; Login has what a registration makes possible.
-- - Lifecycle: the parts put together as cmd/server/main.go does it. Server has the events and
--   `Runs`, the sequences of them. Writes has the abstract writes of the program; Frame, Rules,
--   Operations, Answers, Handlers, Editing, Registering, Importing and Steps lead from the events to
--   them. Changes, Live and History are about the attempts, Consistent, Rows, Stocked, Offers and
--   Constraints about the constraints of the tables (Store/Constraints), Admins about the
--   administrators.
-- - Example: a small shop, on which the modules named Examples apply the theorems.
--
-- How the state is modelled. A method is a function from the state to a result and a state
-- (Store.State.Action); what it has written before an error stays written. A statement that fails
-- writes nothing: an acknowledgement that is lost on the way back is not modelled. Inserts check
-- the keys and references of migrations/. Equal keys of an ORDER BY keep the order of insertion,
-- and a query without one takes the row that Outside picks. A handler runs as a whole:
-- interleavings of two handlers are not modelled. Loops go over lists, so no fuel is needed, except
-- for four in Proxmox. The loops over placeholders have one turn more than the text has characters,
-- since each turn takes four. The loops that poll have 150 turns and 24, since each turn waits two
-- seconds of five minutes, or five of two minutes; the clock there is a part of the state
-- (Proxmox.Wire.Wire) that every call advances. A number n is printed (Prelude/Decimal) with n + 1
-- turns, more than it has digits. A UUID is a number, 0 is uuid.Nil; an instant is an integer of
-- nanoseconds. Go's int is an integer without a width, except for the access window and the duration
-- of a setting, each a time.Duration, which wraps at 64 bits. Logging is left out.
--
-- Not modelled: the constructors, the ticker loop of the reconciler, River's retries, the copying
-- of bytes in the terminal, the run of ansible-playbook, the logout, the logger, the serving of
-- files, and the web pages: they start or serve processes and connections and decide nothing that
-- the models above read. The back ends behind Outside are not tied to Proxmox, Provider/Mock and
-- Ansible: to the orchestrator they may answer anything. The signed-in user of an event is whatever
-- Auth's middleware found, an argument of the event.
pub mod Prelude
pub mod Json
pub mod Models
pub mod Provider
pub mod Outside
pub mod Example
pub mod Store
pub mod Jobs
pub mod Attempts
pub mod Scenarios
pub mod Grading
pub mod Proxmox
pub mod Ansible
pub mod Proxy
pub mod Orchestrator
pub mod Http
pub mod Scoring
pub mod Terminal
pub mod Admin
pub mod Billing
pub mod Auth
pub mod Catalog
pub mod Entitlements
pub mod Migrate
pub mod Config
pub mod Importer
pub mod Startup
pub mod Lifecycle
