-- ===== src/Store/Users.antt =====
-- internal/store/user_store.go over the table `users`.
use painkiller.Prelude.{
  ℕ, ◌||◌, Option, none, some, [], ◌∷◌, ◌++◌, ⊤, if◌then◌else◌, any, find, Text, text_eq,
}
use painkiller.Outside.{Outside}
use painkiller.Models.{Uuid, User}
use painkiller.Store.State.{World, Action, query, exec}
use painkiller.Store.Table.{lookup, has}

abbrev pub key : User → ℕ
key u = u.id

-- `id` and `email` are unique.
abbrev pub insert : User → World → Option World
insert u w =
    if has key u.id w.users || any (λ v. text_eq v.email u.email) w.users
    then none
    else some (record w { users = w.users ++ u ∷ [] })

module _ (o : Outside) where
  unfoldable pub create : User → Action ⊤
  create u = exec o (insert u)

  unfoldable pub get_by_id : Uuid → Action User
  get_by_id id = query o (λ _ w. lookup key id w.users)

  unfoldable pub get_by_email : Text → Action User
  get_by_email email = query o (λ _ w. find (λ u. text_eq u.email email) w.users)
