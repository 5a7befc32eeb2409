-- ===== src/Admin.antt =====
-- internal/admin/handler.go: the operators' interventions in attempts and environments, and the
-- catalogue of tests. They stand behind the middleware of Guard.
pub mod Transaction
pub mod Catalog
pub mod Guard
pub mod Listing
mod Rejected
mod Siblings
mod Examples
use painkiller.Prelude.{
  ℕ, ℤ, pos, leb_ℤ, Bool, true, false, not, ◌&&◌, ◌||◌, Option, none, some, List, [], ◌∷◌, ◌++◌, ⊤,
  Text, is_empty, if◌then◌else◌,
}
use painkiller.Outside.{Outside}
use painkiller.Models.{
  Uuid, Instant, Attempt, AttemptStatus, Product, Test, status_eq, attempt_requested,
  provision_failed, environment_provisioning, environment_ready, running, cleanup_pending,
  provision_environment, grade_attempt, cleanup_environment,
}
use painkiller.Store.{World, Result, ok, err, attempt_payload, exec}
use painkiller.Store.Attempts
use painkiller.Store.Environments
use painkiller.Store.Products
use painkiller.Store.Tests
use painkiller.Jobs.{enqueue}
use painkiller.Attempts.Service.{transition_attempt}
use painkiller.Http.{
  Reply, Handler, success, created, bad_request, not_found, internal_error, given, or_refuse,
  refuse_if, invalid_id, row_not_found, not_provision_failed, could_not_reset, could_not_enqueue,
  has_purchases, could_not_write, title_required, price_required, must_be_positive, invalid_body,
}
use painkiller.Admin.Transaction.{begin_or_commit, or_roll_back}

abbrev pub append_found : Result (List Attempt) × World → List Attempt → List Attempt × World
append_found (ok found, w) all = (all ++ found, w)
append_found (err e, w) all = (all, w)

-- The statuses that `listAttempts` goes through without a filter.
abbrev pub listed : List AttemptStatus
listed =
    attempt_requested ∷ environment_provisioning ∷ environment_ready ∷ running ∷ provision_failed
    ∷ cleanup_pending ∷ []

module _ (o : Outside) where
  unfoldable pub retry_provision : Option Uuid → Handler ⊤
  retry_provision param = given param (bad_request invalid_id) λ attempt_id w.
      or_refuse (not_found row_not_found) (Attempts.get_by_id o attempt_id w) λ attempt.
        refuse_if (not (status_eq attempt.status provision_failed))
          (bad_request not_provision_failed)
          λ w.
            or_refuse (internal_error could_not_reset)
              (transition_attempt o attempt_id attempt_requested w)
              λ _ w.
                or_refuse (internal_error could_not_enqueue)
                  (enqueue o provision_environment (attempt_payload attempt_id) none w)
                  λ _ w. (success tt, w)

  -- The attempt is not looked up.
  unfoldable pub retry_grade : Option Uuid → Handler ⊤
  retry_grade param = given param (bad_request invalid_id) λ attempt_id w.
      or_refuse (internal_error could_not_enqueue)
        (enqueue o grade_attempt (attempt_payload attempt_id) none w) λ _ w. (success tt, w)

  unfoldable pub force_destroy : Option Uuid → Handler ⊤
  force_destroy param = given param (bad_request invalid_id) λ environment_id w.
      or_refuse (not_found row_not_found) (Environments.get_by_id o environment_id w) λ env w.
        or_refuse (internal_error could_not_enqueue)
          (enqueue o cleanup_environment (attempt_payload env.attempt_id) none w)
          λ _ w. (success tt, w)

  unfoldable pub collect : List AttemptStatus → List Attempt → World → List Attempt × World
  collect [] all w = (all, w)
  collect (s ∷ rest) all w =
      let (all', w') = append_found (Attempts.list_by_status o s w) all in collect rest all' w'

  -- The filter is a status; a text that is none finds no attempt.
  unfoldable pub list_attempts : Option AttemptStatus → Handler (List Attempt)
  unfolding collect
  list_attempts none w = let (all, w') = collect listed [] w in (success all, w')
  list_attempts (some s) w =
      or_refuse (internal_error could_not_write) (Attempts.list_by_status o s w)
        λ found w. (success found, w)

  -- `DELETE FROM tests` and `DELETE FROM products` in one transaction: both or none.
  unfoldable pub delete_test : Option Uuid → Handler ⊤
  delete_test param = given param (bad_request invalid_id) λ test_id w.
      or_refuse (not_found row_not_found) (Tests.get_by_id o test_id w) λ existing w.
        or_refuse (internal_error could_not_write) (Tests.has_purchases o test_id w) λ bought.
          refuse_if bought (bad_request has_purchases) λ w.
            or_refuse (internal_error could_not_write) (begin_or_commit o w) λ _ before.
              or_roll_back before (Tests.delete o test_id before) λ _ w.
                or_roll_back before (Products.delete o existing.product_id w)
                  λ _ w. or_roll_back before (begin_or_commit o w) λ _ w. (success tt, w)
