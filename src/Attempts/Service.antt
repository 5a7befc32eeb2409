-- ===== src/Attempts/Service.antt =====
-- internal/attempts/service.go, submit.go and expire.go.
use painkiller.Prelude.{pos, ltb_ℤ, leb_ℤ, not, none, ⊤, if◌then◌else◌, ◌==◌}
use painkiller.Outside.{Outside}
use painkiller.Models.{
  Uuid, Instant, Attempt, AttemptStatus, PurchasedTest, attempt_requested, running, submitted,
  expired, status_eq, provision_environment, grade_attempt,
}
use painkiller.Store.{
  World, Result, Action, Context, Payload, pure, raise, raise_if, or_wrap, ok, err, ◌>>=◌, ◌>>◌,
  now, new_uuid, attempt_payload, bad_json, bad_uuid, wrap, attempt_not_found, purchase_not_found,
  failed_to_decrement, failed_to_create_attempt, failed_to_enqueue, failed_to_update_status,
  failed_to_restore, failed_to_submit, failed_to_expire, failed_to_unmarshal, invalid_attempt_id,
  invalid_transition, no_attempts_remaining, purchase_expired, unauthorized, not_running,
  json_error, uuid_error,
}
use painkiller.Store.Attempts
use painkiller.Store.Purchases
use painkiller.Jobs.{enqueue}
use painkiller.Attempts.StateMachine.{valid_transition}

abbrev pub undone : Action ⊤ → Context → Result ⊤ × World → Result ⊤ × World
undone undo c (ok a, w) = (ok a, w)
undone undo c (err e, w) = (err (wrap c e), (undo w).1)

-- `if err := call(); err != nil { _ = undo(); return fmt.Errorf(…, err) }`
abbrev or_undo : Action ⊤ → Action ⊤ → Context → Action ⊤
or_undo m undo c w = undone undo c (m w)

abbrev pub new_attempt : Uuid → Uuid → Instant → Attempt
new_attempt id purchase_id created = record {
  id = id;
  purchased_test_id = purchase_id;
  status = attempt_requested;
  score = none;
  max_score = none;
  started_at = none;
  ended_at = none;
  created_at = created;
}

-- `json.Unmarshal` and `uuid.Parse` on a job's payload.
abbrev pub parse_payload : Payload → Action Uuid
parse_payload (attempt_payload id) = pure id
parse_payload bad_json = raise (wrap failed_to_unmarshal json_error)
parse_payload bad_uuid = raise (wrap invalid_attempt_id uuid_error)

module _ (o : Outside) where
  -- `RequestAttempt` from the decrement on.
  unfoldable pub start_attempt : PurchasedTest → Action Attempt
  start_attempt purchase = do
    or_wrap (Purchases.decrement_attempts_remaining o purchase.id) failed_to_decrement
    id ← new_uuid o
    created ← now o
    let attempt = new_attempt id purchase.id created
    or_undo (Attempts.create o attempt) (Purchases.increment_attempts_remaining o purchase.id)
        failed_to_create_attempt
    or_undo (enqueue o provision_environment (attempt_payload attempt.id) none)
        (Purchases.increment_attempts_remaining o purchase.id) failed_to_enqueue
    pure attempt

  unfoldable pub request_attempt : Uuid → Uuid → Action Attempt
  request_attempt user_id purchased_test_id = do
    purchase ← or_wrap (Purchases.get_by_id o purchased_test_id) purchase_not_found
    raise_if (not (purchase.user_id == user_id)) unauthorized
    time ← now o
    raise_if (ltb_ℤ purchase.expires_at time) purchase_expired
    raise_if (leb_ℤ purchase.attempts_remaining (pos 0)) no_attempts_remaining
    start_attempt purchase

  unfoldable pub transition_attempt : Uuid → AttemptStatus → Action ⊤
  transition_attempt attempt_id to = do
    attempt ← or_wrap (Attempts.get_by_id o attempt_id) attempt_not_found
    raise_if (not (valid_transition attempt.status to)) (invalid_transition attempt.status to)
    or_wrap (Attempts.update_status o attempt_id to) failed_to_update_status

  unfoldable pub get_attempt : Uuid → Action Attempt
  get_attempt = Attempts.get_by_id o

  unfoldable pub restore_attempt_count : Uuid → Action ⊤
  restore_attempt_count attempt_id = do
    attempt ← or_wrap (Attempts.get_by_id o attempt_id) attempt_not_found
    or_wrap (Purchases.increment_attempts_remaining o attempt.purchased_test_id) failed_to_restore

  unfoldable pub submit_attempt : Uuid → Uuid → Action ⊤
  submit_attempt user_id attempt_id = do
    attempt ← or_wrap (Attempts.get_by_id o attempt_id) attempt_not_found
    purchase ← or_wrap (Purchases.get_by_id o attempt.purchased_test_id) purchase_not_found
    raise_if (not (purchase.user_id == user_id)) unauthorized
    raise_if (not (status_eq attempt.status running)) not_running
    or_wrap (transition_attempt attempt_id submitted) failed_to_submit
    or_wrap (enqueue o grade_attempt (attempt_payload attempt_id) none) failed_to_enqueue

  -- What `HandleExpireAttempt` does with the attempt that it finds.
  abbrev expire_found : Uuid → AttemptStatus → Action ⊤
  expire_found attempt_id status =
      if not (status_eq status running)
      then pure tt
      else (or_wrap (transition_attempt attempt_id expired) failed_to_expire
          >> or_wrap (enqueue o grade_attempt (attempt_payload attempt_id) none) failed_to_enqueue)

  unfoldable pub handle_expire_attempt : Payload → Action ⊤
  handle_expire_attempt payload = do
    attempt_id ← parse_payload payload
    attempt ← or_wrap (Attempts.get_by_id o attempt_id) attempt_not_found
    expire_found attempt_id attempt.status
