-- ===== src/Store/State.antt =====
-- The state that the program's parts share, the errors that they return, and the monad in which
-- their methods are written.
use painkiller.Prelude.{
  ◌≡◌, refl, ap, ℕ, ◌+◌, Bool, true, false, Option, none, some, List, ⊤, if◌then◌else◌,
}
use painkiller.Outside.{Outside}
use painkiller.Models.{
  Uuid, Instant, User, Product, Test, PurchasedTest, ScenarioVersion, Task, Check, Attempt,
  Environment, Session, AttemptStatus, JobKind,
}

-- A job's JSON payload: `{"attempt_id": "<uuid>"}`, something that is no such object, or an object
-- whose text is no UUID.
pub data Payload : Type 0 where
  attempt_payload : Uuid → Payload
  bad_json bad_uuid : Payload

-- `jobs.GenericArgs` as River keeps it, with `ScheduledAt` where one is set.
pub record Job : Type 0 where
  pub kind : JobKind
  pub payload : Payload
  pub scheduled_at : Option Instant

pub record World : Type 0 where
  pub users : List User
  pub products : List Product
  pub tests : List Test
  pub purchased_tests : List PurchasedTest
  pub scenario_versions : List ScenarioVersion
  pub tasks : List Task
  pub checks : List Check
  pub attempts : List Attempt
  pub environments : List Environment
  pub sessions : List Session
  -- The jobs that were inserted, the latest last.
  pub jobs : List Job
  -- How many calls went outside.
  pub calls : ℕ

-- The text that `fmt.Errorf("…: %w", err)` puts before an error.
pub data Context : Type 0 where
  attempt_not_found purchase_not_found test_not_found product_not_found : Context
  scenario_version_not_found environment_not_found : Context
  failed_to_decrement failed_to_create_attempt failed_to_enqueue : Context
  failed_to_update_status failed_to_restore failed_to_submit failed_to_expire : Context
  failed_to_unmarshal invalid_attempt_id failed_to_grade failed_to_list_checks : Context
  failed_to_update_score failed_to_score failed_to_transition failed_to_destroy : Context
  failed_to_hash failed_to_create_user failed_to_generate : Context
  failed_to_create_purchase invalid_user_id invalid_test_id failed_to_create_session : Context
  failed_to_check_version failed_to_create_version failed_to_create_task : Context
  failed_to_create_check failed_to_create_product failed_to_create_test : Context

pub data Error : Type 0 where
  -- `sql.ErrNoRows`, the driver's error, a violated constraint, `store.ErrNoRowsAffected`
  no_rows db_failed violated no_rows_affected : Error
  -- attempts: `ErrInvalidTransition` with its statuses, the other sentinels, the plain errors
  invalid_transition : AttemptStatus → AttemptStatus → Error
  no_attempts_remaining purchase_expired unauthorized not_running : Error
  -- encoding/json and uuid.Parse
  json_error uuid_error : Error
  -- package ssh, and the key generation
  key_error ssh_error : Error
  -- a nil pointer is read: the goroutine panics
  panic : Error
  -- the provider's error
  provider_error : Error
  -- billing
  no_price missing_user_id missing_test_id not_free stripe_error : Error
  -- auth: its sentinels, and the errors of bcrypt and jwt
  email_exists invalid_credentials hash_error token_error : Error
  -- importer: a check of a task that the scenario has not
  unknown_task : Error
  wrap : Context → Error → Error

pub data Result (A : Type 0) : Type 0 where
  ok : A → Result A
  err : Error → Result A

abbrev pub is_ok : {A : Type 0} → Result A → Bool
is_ok (ok _) = true
is_ok (err _) = false

abbrev pub Action : Type 0 → Type 0
Action A = World → Result A × World

module _ {A : Type 0} where
  abbrev pub pure : A → Action A
  pure a w = (ok a, w)

  abbrev pub raise : Error → Action A
  raise e w = (err e, w)

  -- `fmt.Errorf("…: %w", err)` on the error of a call.
  abbrev pub wrapped : Context → Result A × World → Result A × World
  wrapped c (ok a, w) = (ok a, w)
  wrapped c (err e, w) = (err (wrap c e), w)

  abbrev pub or_wrap : Action A → Context → Action A
  or_wrap m c w = wrapped c (m w)

  -- `_ = call()`: what is written stays written, the error is dropped.
  abbrev pub dropped : Result A × World → Result ⊤ × World
  dropped (ok a, w) = (ok tt, w)
  dropped (err e, w) = (ok tt, w)

  abbrev pub ignore : Action A → Action ⊤
  ignore m w = dropped (m w)

-- What follows a call, on its result and the state that it leaves.
abbrev pub and_then : {A B : Type 0} → Result A × World → (A → Action B) → Result B × World
and_then (ok a, w) f = f a w
and_then (err e, w) f = (err e, w)

-- What follows a call succeeds only after a call that succeeds.
pub and_then_ok :
    {A B : Type 0} (r : Result A × World) (f : A → Action B) (b : B) (w : World)
    → and_then r f ≡ (ok b, w)
    → (a : A) × (v : World) × (r ≡ (ok a, v)) × (f a v ≡ (ok b, w))
and_then_ok {B = B} (ok a, v) f b w h = (a, v, refl, h)
and_then_ok {B = B} (err e, v) f b w h =
    let wrong : is_ok {A = B} (err e) ≡ true = ap (λ r. is_ok r.0) h in cc

infixl 5 ◌>>=◌ ◌>>◌
abbrev pub ◌>>=◌ : {A B : Type 0} → Action A → (A → Action B) → Action B
◌>>=◌ m f w = and_then (m w) f

abbrev pub ◌>>◌ : {A B : Type 0} → Action A → Action B → Action B
m >> k = m >>= λ _. k

-- `if c { return err }`
abbrev pub raise_if : Bool → Error → Action ⊤
raise_if c e w = (if c then err e else ok tt, w)

-- One more call went outside.
abbrev pub count_call : World → World
count_call w = record w { calls = w.calls + 1 }

abbrev pub answer : {A : Type 0} → Option A → World → Result A × World
answer none w = (err no_rows, count_call w)
answer (some a) w = (ok a, count_call w)

abbrev pub written : Option World → World → Result ⊤ × World
written none w = (err violated, count_call w)
written (some w') w = (ok tt, count_call w')

-- An SQL statement: `none` stands for `sql.ErrNoRows` in a query, and for a violated constraint in
-- a write, which then changes nothing.
module _ (o : Outside) where
  abbrev pub query : {A : Type 0} → (ℕ → World → Option A) → Action A
  query q w =
      if o.fails w.calls then (err db_failed, count_call w) else answer (q (o.pick w.calls) w) w

  abbrev pub exec : (World → Option World) → Action ⊤
  exec s w = if o.fails w.calls then (err db_failed, count_call w) else written (s w) w

  abbrev pub now : Action Instant
  now w = (ok (o.clock w.calls), count_call w)

  abbrev pub new_uuid : Action Uuid
  new_uuid w = (ok (o.new_uuid w.calls), count_call w)
