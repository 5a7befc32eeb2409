-- ===== src/Lifecycle/Operations.antt =====
-- Every job, service call and reconciler tick makes its changes by the writes of Writes.
use painkiller.Prelude.{◌≡◌, List, [], ◌∷◌, arith, Option, none, some, Text}
use painkiller.Outside.{Outside}
use painkiller.Models.{Uuid, Instant, Attempt, PurchasedTest, Check, Environment, ScenarioVersion}
use painkiller.Store.{World, ok, Payload, attempt_payload, bad_json, bad_uuid}
use painkiller.Provider.{EnvironmentSpec, EnvironmentProvisionSpec}
use painkiller.Scenarios.Schema.{Topology}
use painkiller.Attempts.Service.{
  handle_expire_attempt, request_attempt, start_attempt, submit_attempt, restore_attempt_count,
}
use painkiller.Grading.{grade_attempt, grade_checks, run_check, Totals}
use painkiller.Orchestrator.{
  handle_provision_environment, handle_provision_failure, enqueue_cleanup, finish_provisioning,
  build_environment, provision_attempt, handle_cleanup_environment, destroy_found, reconcile,
  fail_all_stale, enqueue_all, clean_all,
}
use painkiller.Lifecycle.Writes.{call}
use painkiller.Lifecycle.Rules.{Ends, plain-Ends, combine, ◌↝*◌, more}

module _ (start : World) (o : Outside) where
  pub expire_keeps :
      (payload : Payload) (w : World) → start ↝* w → Ends start (handle_expire_attempt o payload w)
  unfolding handle_expire_attempt
  expire_keeps (attempt_payload id) w h = search combine depth 12 fits 20000
  expire_keeps bad_json w h = plain-Ends start _ w h
  expire_keeps bad_uuid w h = plain-Ends start _ w h

  pub submit_keeps :
      (user id : Uuid) (w : World) → start ↝* w → Ends start (submit_attempt o user id w)
  unfolding submit_attempt
  submit_keeps user id w h = search combine depth 12 fits 20000

  restore_keeps : (id : Uuid) (w : World) → start ↝* w → Ends start (restore_attempt_count o id w)
  unfolding restore_attempt_count
  restore_keeps id w h = search combine depth 12 fits 20000

  start_keeps : (p : PurchasedTest) (w : World) → start ↝* w → Ends start (start_attempt o p w)
  unfolding start_attempt
  start_keeps p w h = search combine depth 12 fits 20000

  pub request_keeps :
      (user id : Uuid) (w : World) → start ↝* w → Ends start (request_attempt o user id w)
  unfolding request_attempt
  request_keeps user id w h = search (combine, start_keeps) depth 12 fits 20000

  run_check_calls :
      (c : Check) (ip key : Text) (w : World)
      → (run_check o c ip key w).1 ≡ record w { calls = (run_check o c ip key w).1.calls }
  unfolding run_check
  run_check_calls c ip key w = ground arith

  grade_checks_keeps :
      (cs : List Check) (ip : Option Text) (key : Text) (t : Totals) (w : World)
      → start ↝* w
      → Ends start (grade_checks o cs ip key t w)
  unfolding grade_checks
  grade_checks_keeps [] ip key t w h = plain-Ends start (ok t) w h
  grade_checks_keeps (c ∷ cs) none key t w h = plain-Ends start _ w h
  grade_checks_keeps (c ∷ cs) (some ip) key t w h =
      grade_checks_keeps cs (some ip) key _ _ (more h (call _ (run_check_calls c ip key w)))

  pub grade_keeps :
      (payload : Payload) (w : World) → start ↝* w → Ends start (grade_attempt o payload w)
  unfolding grade_attempt
  grade_keeps (attempt_payload id) w h = search (combine, grade_checks_keeps) depth 20 fits 20000
  grade_keeps bad_json w h = plain-Ends start _ w h
  grade_keeps bad_uuid w h = plain-Ends start _ w h

  failure_keeps :
      (id : Uuid) (w : World) → start ↝* w → Ends start (handle_provision_failure o id w)
  unfolding handle_provision_failure
  failure_keeps id w h = search (combine, restore_keeps) depth 12 fits 20000

  finish_keeps :
      (id env : Uuid) (spec : EnvironmentProvisionSpec) (w : World)
      → start ↝* w
      → Ends start (finish_provisioning o id env spec w)
  unfolding finish_provisioning
  finish_keeps id env spec w h = search (combine, failure_keeps) depth 12 fits 20000

  build_keeps :
      (proxy : Option Text) (id : Uuid) (keys : Text × Text) (v : ScenarioVersion) (t : Topology)
      (spec : EnvironmentSpec) (w : World)
      → start ↝* w
      → Ends start (build_environment o proxy id keys v t spec w)
  unfolding build_environment
  build_keeps proxy id keys v t spec w h =
      search (combine, failure_keeps, finish_keeps) depth 12 fits 20000

  provision_attempt_keeps :
      (proxy : Option Text) (id : Uuid) (a : Attempt) (w : World)
      → start ↝* w
      → Ends start (provision_attempt o proxy id a w)
  unfolding provision_attempt
  provision_attempt_keeps proxy id a w h = search (combine, build_keeps) depth 20 fits 20000

  pub provision_keeps :
      (proxy : Option Text) (payload : Payload) (w : World)
      → start ↝* w
      → Ends start (handle_provision_environment o proxy payload w)
  unfolding handle_provision_environment
  provision_keeps proxy (attempt_payload id) w h =
      search (combine, provision_attempt_keeps) depth 12 fits 20000
  provision_keeps proxy bad_json w h = plain-Ends start _ w h
  provision_keeps proxy bad_uuid w h = plain-Ends start _ w h

  destroy_keeps :
      (id : Uuid) (env : Environment) (w : World)
      → start ↝* w
      → Ends start (destroy_found o id env w)
  unfolding destroy_found
  destroy_keeps id env w h = search combine depth 20 fits 20000

  pub cleanup_keeps :
      (payload : Payload) (w : World)
      → start ↝* w
      → Ends start (handle_cleanup_environment o payload w)
  unfolding handle_cleanup_environment
  cleanup_keeps (attempt_payload id) w h = search (combine, destroy_keeps) depth 12 fits 20000
  cleanup_keeps bad_json w h = plain-Ends start _ w h
  cleanup_keeps bad_uuid w h = plain-Ends start _ w h

  enqueue_cleanup_keeps : (id : Uuid) (w : World) → start ↝* w → Ends start (enqueue_cleanup o id w)
  unfolding enqueue_cleanup
  enqueue_cleanup_keeps id w h = search combine depth 12 fits 20000

  fail_all_stale_keeps :
      (t : Instant) (l : List Attempt) (w : World)
      → start ↝* w
      → Ends start (fail_all_stale o t l w)
  unfolding fail_all_stale
  fail_all_stale_keeps t [] w h = plain-Ends start _ w h
  fail_all_stale_keeps t (a ∷ l) w h =
      let rest = fail_all_stale_keeps t l in
      search (combine, enqueue_cleanup_keeps, rest) depth 12 fits 20000

  enqueue_all_keeps : (l : List Attempt) (w : World) → start ↝* w → Ends start (enqueue_all o l w)
  unfolding enqueue_all
  enqueue_all_keeps [] w h = plain-Ends start _ w h
  enqueue_all_keeps (a ∷ l) w h =
      let rest = enqueue_all_keeps l in
      search (combine, enqueue_cleanup_keeps, rest) depth 12 fits 20000

  clean_all_keeps : (l : List Attempt) (w : World) → start ↝* w → Ends start (clean_all o l w)
  unfolding clean_all
  clean_all_keeps [] w h = plain-Ends start _ w h
  clean_all_keeps (a ∷ l) w h =
      let rest = clean_all_keeps l in
      search (combine, enqueue_cleanup_keeps, rest) depth 12 fits 20000

  pub reconcile_keeps : (w : World) → start ↝* w → Ends start (reconcile o w)
  unfolding reconcile
  reconcile_keeps w h =
      search (combine, fail_all_stale_keeps, enqueue_all_keeps, clean_all_keeps) depth 20 fits 20000
