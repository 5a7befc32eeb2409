-- ===== src/Attempts/Graph.antt =====
-- The table of internal/attempts/statemachine.go as a graph, edge by edge, and the paths in it.
use painkiller.Prelude.{◌≡◌, refl, ◌↔◌, true}
use painkiller.Models.{
  AttemptStatus, purchased, available, attempt_requested, environment_provisioning,
  environment_ready, terminal_opened, running, submitted, expired, grading, scored, cleanup_pending,
  destroyed, provision_failed, expired_before_start, expired_running, cleanup_failed,
}
use painkiller.Attempts.StateMachine.{valid_transition}

-- The edges of the table, one by one.
infix 40 ◌⟶◌ ◌⟶*◌
pub data ◌⟶◌ : AttemptStatus → AttemptStatus → Type 0 where
  unlock : purchased ⟶ available
  request : available ⟶ attempt_requested
  provision : attempt_requested ⟶ environment_provisioning
  finish_provisioning : environment_provisioning ⟶ environment_ready
  open_terminal : environment_ready ⟶ terminal_opened
  start : terminal_opened ⟶ running
  submit : running ⟶ submitted
  expire : running ⟶ expired
  expire_running : running ⟶ expired_running
  grade_submitted : submitted ⟶ grading
  grade_expired : expired ⟶ grading
  grade_expired_running : expired_running ⟶ grading
  score : grading ⟶ scored
  clean_scored : scored ⟶ cleanup_pending
  clean_failed : provision_failed ⟶ cleanup_pending
  clean_expired : expired_before_start ⟶ cleanup_pending
  clean_again : cleanup_failed ⟶ cleanup_pending
  destroy : cleanup_pending ⟶ destroyed
  fail_cleanup : cleanup_pending ⟶ cleanup_failed
  fail_requested : attempt_requested ⟶ provision_failed
  fail_provisioning : environment_provisioning ⟶ provision_failed
  retry : provision_failed ⟶ attempt_requested
  lapse_purchased : purchased ⟶ expired_before_start
  lapse_available : available ⟶ expired_before_start
  lapse_ready : environment_ready ⟶ expired_before_start

pub data ◌⟶*◌ (s : AttemptStatus) : AttemptStatus → Type 0 where
  here : s ⟶* s
  next : {t u : AttemptStatus} → s ⟶* t → t ⟶ u → s ⟶* u

valid_transition_complete : {s t : AttemptStatus} → s ⟶ t → valid_transition s t ≡ true
unfolding valid_transition
valid_transition_complete unlock = refl
valid_transition_complete request = refl
valid_transition_complete provision = refl
valid_transition_complete finish_provisioning = refl
valid_transition_complete open_terminal = refl
valid_transition_complete start = refl
valid_transition_complete submit = refl
valid_transition_complete expire = refl
valid_transition_complete expire_running = refl
valid_transition_complete grade_submitted = refl
valid_transition_complete grade_expired = refl
valid_transition_complete grade_expired_running = refl
valid_transition_complete score = refl
valid_transition_complete clean_scored = refl
valid_transition_complete clean_failed = refl
valid_transition_complete clean_expired = refl
valid_transition_complete clean_again = refl
valid_transition_complete destroy = refl
valid_transition_complete fail_cleanup = refl
valid_transition_complete fail_requested = refl
valid_transition_complete fail_provisioning = refl
valid_transition_complete retry = refl
valid_transition_complete lapse_purchased = refl
valid_transition_complete lapse_available = refl
valid_transition_complete lapse_ready = refl

pub ruleset edges = (
  unlock, request, provision, finish_provisioning, open_terminal, start, submit, expire,
  expire_running, grade_submitted, grade_expired, grade_expired_running, score, clean_scored,
  clean_failed, clean_expired, clean_again, destroy, fail_cleanup, fail_requested,
  fail_provisioning, retry, lapse_purchased, lapse_available, lapse_ready,
)

-- Split on the target first: the sources that the table allows are few.
valid_transition_sound : (s t : AttemptStatus) → valid_transition s t ≡ true → s ⟶ t
unfolding valid_transition
valid_transition_sound purchased available h = unlock
valid_transition_sound purchased expired_before_start h = lapse_purchased
valid_transition_sound available attempt_requested h = request
valid_transition_sound available expired_before_start h = lapse_available
valid_transition_sound attempt_requested environment_provisioning h = provision
valid_transition_sound attempt_requested provision_failed h = fail_requested
valid_transition_sound environment_provisioning environment_ready h = finish_provisioning
valid_transition_sound environment_provisioning provision_failed h = fail_provisioning
valid_transition_sound environment_ready terminal_opened h = open_terminal
valid_transition_sound environment_ready expired_before_start h = lapse_ready
valid_transition_sound terminal_opened running h = start
valid_transition_sound running submitted h = submit
valid_transition_sound running expired h = expire
valid_transition_sound running expired_running h = expire_running
valid_transition_sound submitted grading h = grade_submitted
valid_transition_sound expired grading h = grade_expired
valid_transition_sound grading scored h = score
valid_transition_sound scored cleanup_pending h = clean_scored
valid_transition_sound cleanup_pending destroyed h = destroy
valid_transition_sound cleanup_pending cleanup_failed h = fail_cleanup
valid_transition_sound provision_failed cleanup_pending h = clean_failed
valid_transition_sound provision_failed attempt_requested h = retry
valid_transition_sound expired_before_start cleanup_pending h = clean_expired
valid_transition_sound expired_running grading h = grade_expired_running
valid_transition_sound cleanup_failed cleanup_pending h = clean_again
valid_transition_sound _ _ h = cc

-- `ValidTransition(from, to)` holds of the edges and of nothing else.
pub valid_transition_iff :
    (from to : AttemptStatus) → (valid_transition from to ≡ true) ↔ (from ⟶ to)
valid_transition_iff from to = (valid_transition_sound from to, valid_transition_complete)
