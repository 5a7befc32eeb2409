-- ===== src/Admin/Guard.antt =====
-- internal/admin/middleware.go: who reaches the handlers of this component.
use painkiller.Prelude.{
  ◌≡◌, refl, ◌⊎◌, inl, inr, true, not, Option, none, some, arith, Option-cases, Bool-cases,
}
use painkiller.Outside.{Outside}
use painkiller.Models.{Uuid, User}
use painkiller.Store.{World, count_call}
use painkiller.Store.Users
use painkiller.Store.Table.{lookup}
use painkiller.Http.{
  Handler, unauthorized, forbidden, given, or_refuse, refuse_if, not_signed_in, is_forbidden,
}

module _ {A : Type 0} where
  -- `Middleware` around a handler.
  unfoldable pub admin_only : Outside → Option Uuid → Handler A → Handler A
  admin_only o user next = given user (unauthorized not_signed_in) λ id w.
      or_refuse (unauthorized not_signed_in) (Users.get_by_id o id w)
        λ found. refuse_if (not found.is_admin) (forbidden is_forbidden) next

  -- Either the user is in the database as an administrator and the handler runs, or the answer is
  -- 401 or 403 and nothing is written.
  pub admin_only_lem :
      (o : Outside) (user : Option Uuid) (next : Handler A) (w : World)
      → ((id : Uuid) × (u : User) × (user ≡ some id)
          × (lookup Users.key id w.users ≡ some u)
          × (u.is_admin ≡ true)
          × (admin_only o user next w ≡ next (count_call w)))
        ⊎ ((((admin_only o user next w).0 ≡ unauthorized not_signed_in)
              ⊎ ((admin_only o user next w).0 ≡ forbidden is_forbidden))
            × ((admin_only o user next w).1
                ≡ record w { calls = (admin_only o user next w).1.calls }))
  unfolding admin_only Users.get_by_id
  admin_only_lem o none next w = inr (inl refl, refl)
  admin_only_lem o (some id) next w = elim (Bool-cases (o.fails w.calls)) [
    | inl down ↦ inr (inl (ground arith), ground arith)
    | inr up ↦ elim (Option-cases (lookup Users.key id w.users)) [
      | inl missing ↦ inr (inl (ground arith), ground arith)
      | inr (u, found) ↦ elim (Bool-cases u.is_admin) [
        | inl admin ↦ inl (id, u, refl, found, admin, ground arith)
        | inr other ↦ inr (inr (ground arith), ground arith)
      ]
    ]
  ]
