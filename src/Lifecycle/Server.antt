-- ===== src/Lifecycle/Server.antt =====
-- The parts put together as cmd/server/main.go and internal/orchestrator/orchestrator.go do it: the
-- handlers that the worker knows, and everything that can run next.
use painkiller.Prelude.{ℕ, Bool, Option, [], Text}
use painkiller.Outside.{Outside}
use painkiller.Models.{
  Uuid, AttemptStatus, JobKind, provision_environment, cleanup_environment, expire_attempt,
}
use painkiller.Store.{World, Job}
use painkiller.Jobs.Worker.{Handlers, register_handler, work}
use painkiller.Attempts.Service.{handle_expire_attempt}
use painkiller.Attempts.Handler.{create_attempt, get_attempt, submit_attempt}
use painkiller.Grading.{grade_attempt}
use painkiller.Orchestrator.{handle_provision_environment, handle_cleanup_environment, reconcile}
use painkiller.Scoring.{get_score}
use painkiller.Terminal.{handle_web_socket}
use painkiller.Admin.{retry_provision, retry_grade, force_destroy, list_attempts, delete_test}
use painkiller.Admin.Guard.{admin_only}
use painkiller.Admin.Listing.{list_all_tests, get_test}
use painkiller.Auth.{Vault, handle_register, handle_login, handle_me}
use painkiller.Catalog.{list_tests}
use painkiller.Entitlements.{dashboard}
use painkiller.Importer.Files.{Repository}
use painkiller.Importer.Rows.{import_all}
use painkiller.Billing
use painkiller.Billing.Routes.{checkout, acquire_free}
use painkiller.Admin.Catalog.{CreateTestRequest, UpdateTestRequest, create_test, update_test}

-- A request to one of the routes, an event of Stripe, an import of scenario files, a job that River
-- hands to the worker, or a tick of the reconciler. The first identifier of most requests is the user
-- whom the middleware has found, if any. `proxy` is the proxy's address.
pub data Event : Type 0 where
  post_attempt : Option Uuid → Option (Option Uuid) → Event
  show_attempt : Option Uuid → Option Uuid → Event
  post_submit : Option Uuid → Option Uuid → Event
  show_score : Option Uuid → Option Uuid → Event
  open_terminal : Bool → Text → Event
  post_retry_provision : Option Uuid → Option Uuid → Event
  post_retry_grade : Option Uuid → Option Uuid → Event
  post_force_destroy : Option Uuid → Option Uuid → Event
  post_test : Option Uuid → Option CreateTestRequest → Event
  put_test : Option Uuid → Option Uuid → Option UpdateTestRequest → Event
  drop_test : Option Uuid → Option Uuid → Event
  show_tests : Option Uuid → Event
  show_test : Option Uuid → Option Uuid → Event
  post_webhook : Billing.Event → Event
  post_checkout :
      (ℕ → Text → Uuid → Uuid → Option Text) → Option Uuid → Option (Option Uuid) → Event
  post_free : Option Uuid → Option (Option Uuid) → Event
  show_attempts : Option Uuid → Option AttemptStatus → Event
  post_register : Vault → Option (Text × Text) → Event
  post_login : Vault → Option (Text × Text) → Event
  show_me : Option Uuid → Event
  show_catalog : Event
  show_dashboard : Option Uuid → Event
  import_files : Repository → Text → Event
  run_job : Job → Event
  tick : Event

module _ (o : Outside) (proxy : Option Text) where
  -- The four registrations, in their order.
  unfoldable pub registered : Handlers
  unfolding register_handler
  registered = register_handler expire_attempt (handle_expire_attempt o) (
      register_handler JobKind.grade_attempt (grade_attempt o) (
        register_handler cleanup_environment (handle_cleanup_environment o)
          (register_handler provision_environment (handle_provision_environment o proxy) [])))

  unfoldable pub step : Event → World → World
  step (post_attempt user body) w = (create_attempt o user body w).1
  step (show_attempt user id) w = (get_attempt o user id w).1
  step (post_submit user id) w = (submit_attempt o user id w).1
  step (show_score user id) w = (get_score o user id w).1
  step (open_terminal upgrades token) w = (handle_web_socket o upgrades token w).1
  step (post_retry_provision user id) w = (admin_only o user (retry_provision o id) w).1
  step (post_retry_grade user id) w = (admin_only o user (retry_grade o id) w).1
  step (post_force_destroy user id) w = (admin_only o user (force_destroy o id) w).1
  step (post_test user body) w = (admin_only o user (create_test o body) w).1
  step (put_test user id body) w = (admin_only o user (update_test o id body) w).1
  step (drop_test user id) w = (admin_only o user (delete_test o id) w).1
  step (show_tests user) w = (admin_only o user (list_all_tests o) w).1
  step (show_test user id) w = (admin_only o user (get_test o id) w).1
  step (post_webhook event) w = (Billing.handle o event w).1
  step (post_checkout new_session user body) w = (checkout o new_session user body w).1
  step (post_free user body) w = (acquire_free o user body w).1
  step (show_attempts user status) w = (admin_only o user (list_attempts o status) w).1
  step (post_register v body) w = (handle_register v o body w).1
  step (post_login v body) w = (handle_login v o body w).1
  step (show_me user) w = (handle_me o user w).1
  step show_catalog w = (list_tests o w).1
  step (show_dashboard user) w = (dashboard o user w).1
  step (import_files repo path) w = (import_all o repo path w).1
  step (run_job job) w = (work registered job w).1
  step tick w = (reconcile o w).1

-- One event after the other, each with its own history of the outside world.
pub data Runs (proxy : Option Text) : World → World → Type 0 where
  stay : {w : World} → Runs proxy w w
  after :
      {v w : World} → Runs proxy v w → (o : Outside) (e : Event) → Runs proxy v (step o proxy e w)
