-- ===== src/Entitlements/Examples.antt =====
-- The theorem on the dashboard at work.
use painkiller.Prelude.{◌≡◌, refl, true, some, [], ◌∷◌, arith}
use painkiller.Store.{World, is_ok}
use painkiller.Store.Constraints.{Unique}
use painkiller.Store.Table.{lookup, has}
use painkiller.Store.Purchases
use painkiller.Store.Rows.{order_by_desc}
use painkiller.Http.{success}
use painkiller.Example.{shop, calm, purchase}
use painkiller.Attempts.Service.{request_attempt}
use painkiller.Entitlements.{to_response, dashboard}
use painkiller.Entitlements.Active.{dashboard_usable}

abbrev seen : World
seen = (dashboard calm (some 1) shop).1

shown_purchase :
    dashboard calm (some 1) shop ≡ (success (to_response (calm.clock 1) purchase ∷ []), seen)
unfolding dashboard Purchases.list_by_user_id order_by_desc
shown_purchase = refl

dashboard_usable_example : (purchase.user_id ≡ 1) × (is_ok (request_attempt calm 1 5 seen).0 ≡ true)
unfolding dashboard Purchases.list_by_user_id Unique lookup has
dashboard_usable_example =
    dashboard_usable calm calm 1 5 purchase (to_response (calm.clock 1) purchase ∷ []) shop seen
      shown_purchase refl (refl, tt) refl (λ n. refl) (omega arith) refl
