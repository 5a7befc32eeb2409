-- ===== src/Store/Purchases.antt =====
-- internal/store/purchase_store.go over the table `purchased_tests`.
use painkiller.Prelude.{
  ℕ, pos, ◌+ℤ◌, ◌-ℤ◌, ltb_ℤ, Bool, false, ◌&&◌, ◌||◌, not, Option, none, some, List, [], ◌∷◌, ◌++◌,
  ⊤, if◌then◌else◌, ◌==◌, select, any, Text, text_eq,
}
use painkiller.Outside.{Outside}
use painkiller.Models.{Uuid, PurchasedTest}
use painkiller.Store.State.{
  World, Action, query, exec, ok, err, no_rows_affected, db_failed, count_call,
}
use painkiller.Store.Table.{lookup, modify, has}
use painkiller.Store.Rows.{order_by_desc}

abbrev pub key : PurchasedTest → ℕ
key p = p.id

-- Two `stripe_session_id`s clash; NULL clashes with nothing.
abbrev pub same_text : Option Text → Option Text → Bool
same_text (some s) (some t) = text_eq s t
same_text _ _ = false

-- `id` and `stripe_session_id` are unique; `user_id` and `test_id` refer to rows.
abbrev pub insert : PurchasedTest → World → Option World
insert p w =
    if has key p.id w.purchased_tests
      || any (λ q. same_text p.stripe_session_id q.stripe_session_id) w.purchased_tests
      || not (has (λ u. u.id) p.user_id w.users)
      || not (has (λ t. t.id) p.test_id w.tests)
    then none
    else some (record w { purchased_tests = w.purchased_tests ++ p ∷ [] })

abbrev pub take_one : PurchasedTest → PurchasedTest
take_one p =
    if ltb_ℤ (pos 0) p.attempts_remaining
    then record p { attempts_remaining = p.attempts_remaining -ℤ pos 1 }
    else p

abbrev pub give_one : PurchasedTest → PurchasedTest
give_one p = record p { attempts_remaining = p.attempts_remaining +ℤ pos 1 }

-- Does the statement's `WHERE id = $1 AND attempts_remaining > 0` fit the row?
abbrev pub has_left : Uuid → PurchasedTest → Bool
has_left id p = p.id == id && ltb_ℤ (pos 0) p.attempts_remaining

module _ (o : Outside) where
  unfoldable pub create : PurchasedTest → Action ⊤
  create p = exec o (insert p)

  unfoldable pub get_by_id : Uuid → Action PurchasedTest
  get_by_id id = query o (λ _ w. lookup key id w.purchased_tests)

  unfoldable pub list_by_user_id : Uuid → Action (List PurchasedTest)
  list_by_user_id id = query o (λ _ w.
      some (order_by_desc (λ p. p.created_at) (select (λ p. p.user_id == id) w.purchased_tests)))

  -- `rows == 0` where no row fits.
  unfoldable pub decrement_attempts_remaining : Uuid → Action ⊤
  decrement_attempts_remaining id w =
      if o.fails w.calls
      then (err db_failed, count_call w)
      else if any (has_left id) w.purchased_tests
      then (
        ok tt,
        count_call (record w { purchased_tests = modify key id take_one w.purchased_tests }),
      )
      else (err no_rows_affected, count_call w)

  unfoldable pub increment_attempts_remaining : Uuid → Action ⊤
  increment_attempts_remaining id =
      exec o (λ w. some (record w { purchased_tests = modify key id give_one w.purchased_tests }))
