-- ===== src/Store/Attempts.antt =====
-- internal/store/attempt_store.go over the table `attempts`.
use painkiller.Prelude.{
  ℕ, ℤ, Option, none, some, List, [], ◌∷◌, ◌++◌, ⊤, if◌then◌else◌, ◌==◌, not, ◌||◌, select,
}
use painkiller.Outside.{Outside}
use painkiller.Models.{Uuid, Attempt, AttemptStatus, status_eq}
use painkiller.Store.State.{World, Action, query, exec}
use painkiller.Store.Table.{lookup, modify, has}
use painkiller.Store.Rows.{order_by, order_by_desc}

abbrev pub key : Attempt → ℕ
key a = a.id

-- `id` is the primary key, and `purchased_test_id` refers to `purchased_tests`.
abbrev pub insert : Attempt → World → Option World
insert a w =
    if has key a.id w.attempts || not (has (λ p. p.id) a.purchased_test_id w.purchased_tests)
    then none
    else some (record w { attempts = w.attempts ++ a ∷ [] })

abbrev pub set_status : AttemptStatus → Attempt → Attempt
set_status s a = record a { status = s }

abbrev pub set_score : ℤ → ℤ → Attempt → Attempt
set_score n m a = record a { score = some n; max_score = some m }

module _ (o : Outside) where
  unfoldable pub create : Attempt → Action ⊤
  create a = exec o (insert a)

  unfoldable pub get_by_id : Uuid → Action Attempt
  get_by_id id = query o (λ _ w. lookup key id w.attempts)

  unfoldable pub update_status : Uuid → AttemptStatus → Action ⊤
  update_status id s =
      exec o (λ w. some (record w { attempts = modify key id (set_status s) w.attempts }))

  unfoldable pub update_score : Uuid → ℤ → ℤ → Action ⊤
  update_score id n m =
      exec o (λ w. some (record w { attempts = modify key id (set_score n m) w.attempts }))

  unfoldable pub list_by_purchase_id : Uuid → Action (List Attempt)
  list_by_purchase_id id = query o (λ _ w.
      some (order_by_desc (λ a. a.created_at) (select (λ a. a.purchased_test_id == id) w.attempts)))

  unfoldable pub list_by_status : AttemptStatus → Action (List Attempt)
  list_by_status s =
      query o
        (λ _ w. some (order_by (λ a. a.created_at) (select (λ a. status_eq a.status s) w.attempts)))
