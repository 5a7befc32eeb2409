-- ===== src/Lifecycle/Handlers.antt =====
-- The writes of each handler that starts, shows, buys, grades or repairs.
use painkiller.Prelude.{ℕ, [], Bool, Option, none, some, Text, not, is_empty}
use painkiller.Outside.{Outside}
use painkiller.Models.{Uuid, Instant, AttemptStatus, Session}
use painkiller.Store.{World, count_call, not_free}
use painkiller.Attempts.Service
use painkiller.Attempts.Handler.{create_attempt, get_attempt, submit_attempt}
use painkiller.Scoring.{get_score}
use painkiller.Terminal.{handle_web_socket, note_opening, note_first}
use painkiller.Admin.{retry_provision, retry_grade, force_destroy, list_attempts, listed}
use painkiller.Admin.Catalog.{CreateTestRequest, create_test}
use painkiller.Billing
use painkiller.Billing.{
  Metadata, id_text, missing, malformed, completed, unverified, unparsed, other,
}
use painkiller.Billing.Routes.{checkout, acquire_free}
use painkiller.Lifecycle.Rules.{Ends, ◌↝*◌, counted, if-Ends, plain-Ends, and_then-Ends, combine}
use painkiller.Lifecycle.Operations.{submit_keeps, request_keeps}
use painkiller.Lifecycle.Answers.{
  Answers, or_refuse-Answers, refuse_if-Answers, plain-Answers, if-Answers, or_roll_back-Answers,
  create_reply-Answers, submit_reply-Answers, with_token-Answers, webhook_reply-Answers,
  checkout_reply-Answers, acquire_reply-Answers, connect-Answers, begin_or_commit-Ends,
  create_product-Ends, create_test-Ends, product_row-Ends, joined-Ends, record_purchase-Ends,
  with_test-Ends, with_product-Ends, guarded-Ends, collect_keeps,
}

ruleset answer = (
  or_refuse-Answers, refuse_if-Answers, plain-Answers, if-Answers, or_roll_back-Answers,
  create_reply-Answers, submit_reply-Answers, with_token-Answers, webhook_reply-Answers,
  checkout_reply-Answers, acquire_reply-Answers, connect-Answers, begin_or_commit-Ends,
  create_product-Ends, create_test-Ends, product_row-Ends, joined-Ends, combine,
)

module _ (start : World) (o : Outside) where
  pub create_keeps :
      (user : Option Uuid) (body : Option (Option Uuid)) (w : World)
      → start ↝* w
      → Answers start (create_attempt o user body w)
  unfolding create_attempt
  create_keeps none body w h = plain-Answers start _ w h
  create_keeps (some u) none w h = plain-Answers start _ w h
  create_keeps (some u) (some none) w h = plain-Answers start _ w h
  create_keeps (some u) (some (some id)) w h =
      create_reply-Answers start _ (request_keeps start o u id w h)

  pub show_keeps :
      (user param : Option Uuid) (w : World)
      → start ↝* w
      → Answers start (get_attempt o user param w)
  unfolding get_attempt Service.get_attempt
  show_keeps none param w h = plain-Answers start _ w h
  show_keeps (some u) none w h = plain-Answers start _ w h
  show_keeps (some u) (some id) w h = search answer depth 12 fits 20000

  pub submit_event_keeps :
      (user param : Option Uuid) (w : World)
      → start ↝* w
      → Answers start (submit_attempt o user param w)
  unfolding submit_attempt
  submit_event_keeps none param w h = plain-Answers start _ w h
  submit_event_keeps (some u) none w h = plain-Answers start _ w h
  submit_event_keeps (some u) (some id) w h =
      submit_reply-Answers start _ (submit_keeps start o u id w h)

  pub score_keeps :
      (user param : Option Uuid) (w : World) → start ↝* w → Answers start (get_score o user param w)
  unfolding get_score
  score_keeps none param w h = plain-Answers start _ w h
  score_keeps (some u) none w h = plain-Answers start _ w h
  score_keeps (some u) (some id) w h = search answer depth 12 fits 20000

  note_keeps : (s : Session) (w : World) → start ↝* w → Ends start (note_opening o s w)
  unfolding note_opening
  note_keeps s w h = search answer depth 12 fits 20000

  note_first-Ends :
      (t : Option Instant) (s : Session) (w : World) → start ↝* w → Ends start (note_first o t s w)
  note_first-Ends none s w h = note_keeps s w h
  note_first-Ends (some t) s w h = plain-Ends start _ w h

  pub terminal_keeps :
      (upgrades : Bool) (token : Text) (w : World)
      → start ↝* w
      → Answers start (handle_web_socket o upgrades token w)
  unfolding handle_web_socket
  terminal_keeps upgrades token w h = search (answer, note_first-Ends) depth 14 fits 40000

  pub retry_provision_keeps :
      (param : Option Uuid) (w : World) → start ↝* w → Answers start (retry_provision o param w)
  unfolding retry_provision
  retry_provision_keeps none w h = plain-Answers start _ w h
  retry_provision_keeps (some id) w h = search answer depth 12 fits 20000

  pub retry_grade_keeps :
      (param : Option Uuid) (w : World) → start ↝* w → Answers start (retry_grade o param w)
  unfolding retry_grade
  retry_grade_keeps none w h = plain-Answers start _ w h
  retry_grade_keeps (some id) w h = search answer depth 12 fits 20000

  pub force_destroy_keeps :
      (param : Option Uuid) (w : World) → start ↝* w → Answers start (force_destroy o param w)
  unfolding force_destroy
  force_destroy_keeps none w h = plain-Answers start _ w h
  force_destroy_keeps (some id) w h = search answer depth 12 fits 20000

  pub create_test_keeps :
      (body : Option CreateTestRequest) (w : World)
      → start ↝* w
      → Answers start (create_test o body w)
  unfolding create_test
  create_test_keeps none w h = plain-Answers start _ w h
  create_test_keeps (some req) w h = search answer depth 20 fits 40000

  -- The two ways to buy.
  completed_keeps :
      (user test : Metadata) (w : World)
      → start ↝* w
      → Ends start (Billing.handle_checkout_completed o user test w)
  unfolding Billing.handle_checkout_completed
  completed_keeps missing test w h = plain-Ends start _ w h
  completed_keeps malformed missing w h = plain-Ends start _ w h
  completed_keeps malformed malformed w h = plain-Ends start _ w h
  completed_keeps malformed (id_text t) w h = plain-Ends start _ w h
  completed_keeps (id_text u) missing w h = plain-Ends start _ w h
  completed_keeps (id_text u) malformed w h = plain-Ends start _ w h
  completed_keeps (id_text u) (id_text id) w h = with_test-Ends start o _ id _ w h λ t found.
      and_then-Ends start _ _ (record_purchase-Ends start o u id t _ found (counted h))
        λ a v k. plain-Ends start _ v k

  free_keeps :
      (user id : Uuid) (w : World)
      → start ↝* w
      → Ends start (Billing.create_free_purchase o user id w)
  unfolding Billing.create_free_purchase
  free_keeps user id w h = with_test-Ends start o _ id _ w h λ t found.
      with_product-Ends start o _ t.product_id _ (count_call w) (counted h) λ p.
        guarded-Ends start (not p.is_free) not_free _ _ (counted (counted h))
          (record_purchase-Ends start o user id t _ found (counted (counted h)))

  pub webhook_keeps :
      (event : Billing.Event) (w : World) → start ↝* w → Answers start (Billing.handle o event w)
  unfolding Billing.handle
  webhook_keeps unverified w h = plain-Answers start _ w h
  webhook_keeps unparsed w h = plain-Answers start _ w h
  webhook_keeps (completed u t) w h = webhook_reply-Answers start _ (completed_keeps u t w h)
  webhook_keeps other w h = plain-Answers start _ w h

  price-Ends : (p : Option Text) (w : World) → start ↝* w → Ends start (Billing.price_or_error p w)
  price-Ends none w h = record { holds = h }
  price-Ends (some p) w h =
      if-Ends start (is_empty p) _ _ w (record { holds = h }) (record { holds = h })

  session_keeps :
      (new_session : ℕ → Text → Uuid → Uuid → Option Text) (user id : Uuid) (w : World)
      → start ↝* w
      → Ends start (Billing.create_checkout_session o new_session user id w)
  unfolding Billing.create_checkout_session
  session_keeps new_session user id w h = search (answer, price-Ends) depth 12 fits 20000

  pub checkout_keeps :
      (new_session : ℕ → Text → Uuid → Uuid → Option Text) (user : Option Uuid)
      (body : Option (Option Uuid)) (w : World)
      → start ↝* w
      → Answers start (checkout o new_session user body w)
  unfolding checkout
  checkout_keeps s none body w h = plain-Answers start _ w h
  checkout_keeps s (some u) none w h = plain-Answers start _ w h
  checkout_keeps s (some u) (some none) w h = plain-Answers start _ w h
  checkout_keeps s (some u) (some (some id)) w h =
      checkout_reply-Answers start _ (session_keeps s u id w h)

  pub acquire_keeps :
      (user : Option Uuid) (body : Option (Option Uuid)) (w : World)
      → start ↝* w
      → Answers start (acquire_free o user body w)
  unfolding acquire_free
  acquire_keeps none body w h = plain-Answers start _ w h
  acquire_keeps (some u) none w h = plain-Answers start _ w h
  acquire_keeps (some u) (some none) w h = plain-Answers start _ w h
  acquire_keeps (some u) (some (some id)) w h = acquire_reply-Answers start _ (free_keeps u id w h)

  pub list_keeps :
      (status : Option AttemptStatus) (w : World)
      → start ↝* w
      → Answers start (list_attempts o status w)
  unfolding list_attempts
  list_keeps none w h = record { holds = collect_keeps start o listed [] w h }
  list_keeps (some s) w h = search answer depth 12 fits 20000
