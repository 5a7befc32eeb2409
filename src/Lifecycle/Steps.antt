-- ===== src/Lifecycle/Steps.antt =====
-- Every event of the server is a sequence of the writes of Writes.
use painkiller.Prelude.{Option, Text}
use painkiller.Outside.{Outside}
use painkiller.Models.{
  Instant, JobKind, provision_environment, grade_attempt, cleanup_environment, expire_attempt,
}
use painkiller.Store.{World, Payload}
use painkiller.Jobs.Worker.{work, handler_of, register_handler}
use painkiller.Lifecycle.Rules.{Ends, ◌↝*◌, none_yet}
use painkiller.Lifecycle.Operations.{
  expire_keeps, grade_keeps, provision_keeps, cleanup_keeps, reconcile_keeps,
}
use painkiller.Lifecycle.Handlers.{
  create_keeps, show_keeps, submit_event_keeps, score_keeps, terminal_keeps, retry_provision_keeps,
  retry_grade_keeps, force_destroy_keeps, create_test_keeps, webhook_keeps, checkout_keeps,
  acquire_keeps, list_keeps,
}
use painkiller.Lifecycle.Editing.{update_keeps, delete_keeps}
use painkiller.Lifecycle.Registering.{
  admin_keeps, register_keeps, login_keeps, me_keeps, catalog_keeps, dashboard_keeps,
  all_tests_keeps, one_test_keeps,
}
use painkiller.Lifecycle.Importing.{import_keeps}
use painkiller.Lifecycle.Server.{
  Event, step, registered, Runs, stay, after, post_attempt, show_attempt, post_submit, show_score,
  open_terminal, post_retry_provision, post_retry_grade, post_force_destroy, post_test,
  post_webhook, post_checkout, post_free, show_attempts, run_job, tick, put_test, drop_test,
  show_tests, show_test, post_register, post_login, show_me, show_catalog, show_dashboard,
  import_files,
}

module _ (start : World) (o : Outside) where
  kind_keeps :
      (proxy : Option Text) (kind : JobKind) (payload : Payload) (at : Option Instant) (w : World)
      → start ↝* w
      → Ends start (
          work
            (registered o proxy)
            (record { kind = kind; payload = payload; scheduled_at = at })
            w)
  unfolding work handler_of registered register_handler
  kind_keeps proxy provision_environment p t w h = provision_keeps start o proxy p w h
  kind_keeps proxy grade_attempt p t w h = grade_keeps start o p w h
  kind_keeps proxy cleanup_environment p t w h = cleanup_keeps start o p w h
  kind_keeps proxy expire_attempt p t w h = expire_keeps start o p w h

  step_keeps :
      (proxy : Option Text) (e : Event) (w : World) → start ↝* w → start ↝* step o proxy e w
  unfolding step
  step_keeps proxy (post_attempt user body) w h = (create_keeps start o user body w h).holds
  step_keeps proxy (show_attempt user id) w h = (show_keeps start o user id w h).holds
  step_keeps proxy (post_submit user id) w h = (submit_event_keeps start o user id w h).holds
  step_keeps proxy (show_score user id) w h = (score_keeps start o user id w h).holds
  step_keeps proxy (open_terminal upgrades token) w h =
      (terminal_keeps start o upgrades token w h).holds
  step_keeps proxy (post_retry_provision user id) w h =
      (admin_keeps start o user _ w h (retry_provision_keeps start o id)).holds
  step_keeps proxy (post_retry_grade user id) w h =
      (admin_keeps start o user _ w h (retry_grade_keeps start o id)).holds
  step_keeps proxy (post_force_destroy user id) w h =
      (admin_keeps start o user _ w h (force_destroy_keeps start o id)).holds
  step_keeps proxy (post_test user body) w h =
      (admin_keeps start o user _ w h (create_test_keeps start o body)).holds
  step_keeps proxy (put_test user id body) w h =
      (admin_keeps start o user _ w h (update_keeps start o id body)).holds
  step_keeps proxy (drop_test user id) w h =
      (admin_keeps start o user _ w h (delete_keeps start o id)).holds
  step_keeps proxy (show_tests user) w h =
      (admin_keeps start o user _ w h (all_tests_keeps start o)).holds
  step_keeps proxy (show_test user id) w h =
      (admin_keeps start o user _ w h (one_test_keeps start o id)).holds
  step_keeps proxy (post_webhook event) w h = (webhook_keeps start o event w h).holds
  step_keeps proxy (post_checkout s user body) w h = (checkout_keeps start o s user body w h).holds
  step_keeps proxy (post_free user body) w h = (acquire_keeps start o user body w h).holds
  step_keeps proxy (show_attempts user status) w h =
      (admin_keeps start o user _ w h (list_keeps start o status)).holds
  step_keeps proxy (post_register v body) w h = (register_keeps start o v body w h).holds
  step_keeps proxy (post_login v body) w h = (login_keeps start o v body w h).holds
  step_keeps proxy (show_me user) w h = (me_keeps start o user w h).holds
  step_keeps proxy show_catalog w h = (catalog_keeps start o w h).holds
  step_keeps proxy (show_dashboard user) w h = (dashboard_keeps start o user w h).holds
  step_keeps proxy (import_files repo path) w h = import_keeps start o repo path w h
  step_keeps proxy (run_job job) w h =
      (kind_keeps proxy job.kind job.payload job.scheduled_at w h).holds
  step_keeps proxy tick w h = (reconcile_keeps start o w h).holds

-- Every run of the program, whatever its events and failures, is a sequence of the statements of
-- Writes, each with the conditions under which it is made.
pub Runs-writes : (proxy : Option Text) (v w : World) → Runs proxy v w → v ↝* w
Runs-writes proxy v _ stay = none_yet
Runs-writes proxy v _ (after {w} run o e) = step_keeps v o proxy e w (Runs-writes proxy v w run)
