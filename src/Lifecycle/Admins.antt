-- ===== src/Lifecycle/Admins.antt =====
-- Who can become an administrator: `is_admin` of internal/models, which internal/admin/middleware.go
-- reads.
use painkiller.Prelude.{
  ◌≡◌, refl, ap, ◌∙◌, ◌⊎◌, inl, inr, Bool, true, false, ◌&&◌, ◌==◌, Option, some, List, [], ◌∷◌,
  ◌++◌, arith, any, Text,
}
use painkiller.Outside.{Outside}
use painkiller.Models.{Uuid, User}
use painkiller.Store.{World}
use painkiller.Store.Users
use painkiller.Store.Table.{lookup}
use painkiller.Http.{Handler, unauthorized, forbidden, not_signed_in, is_forbidden}
use painkiller.Attempts.Service.{new_attempt}
use painkiller.Billing.{new_purchase}
use painkiller.Admin.Guard.{admin_only, admin_only_lem}
use painkiller.Lifecycle.Writes.{
  ◌↝◌, ◌↝*◌, none_yet, more, call, move, request, score, queue, take, give, buy, build,
  set_environment, admit, enter, add_product, add_test, change_product, change_test, remove_test,
  remove_product, add_user, add_version, add_task, add_check,
}
use painkiller.Lifecycle.Rows.{
  attempt_row, purchase_row, environment_row, session_row, product_row, product_set, product_gone,
  test_row, test_gone, user_row, version_row, task_row, check_row,
}
use painkiller.Lifecycle.Server.{Runs}
use painkiller.Lifecycle.Steps.{Runs-writes}

-- The user is in the table, as an administrator.
abbrev pub is_admin_in : Uuid → List User → Bool
is_admin_in id l = any (λ u. u.id == id && u.is_admin) l

append_plain :
    (id : Uuid) (l : List User) (u : User)
    → u.is_admin ≡ false
    → is_admin_in id (l ++ u ∷ []) ≡ is_admin_in id l
append_plain id [] u plain = ground (arith, plain)
append_plain id (v ∷ l) u plain = ground (arith, append_plain id l u plain)

user_added :
    (id : Uuid) (u : User) (v w : World)
    → Users.insert u v ≡ some w
    → u.is_admin ≡ false
    → is_admin_in id w.users ≡ is_admin_in id v.users
user_added id u v w e plain =
    ap (λ x. is_admin_in id x.users) (user_row u v w e) ∙ append_plain id v.users u plain

write_admins : (id : Uuid) (v w : World) → v ↝ w → is_admin_in id w.users ≡ is_admin_in id v.users
write_admins id v w (call n e) = ap (λ u. is_admin_in id u.users) e
write_admins id v w (move k a to asked found valid e) = ap (λ u. is_admin_in id u.users) e
write_admins id v w (request k purchase created e) =
    ap (λ u. is_admin_in id u.users) (attempt_row (new_attempt k purchase created) v w e)
write_admins id v w (score k n m e) = ap (λ u. is_admin_in id u.users) e
write_admins id v w (queue j e) = ap (λ u. is_admin_in id u.users) e
write_admins id v w (take k e) = ap (λ u. is_admin_in id u.users) e
write_admins id v w (give k e) = ap (λ u. is_admin_in id u.users) e
write_admins id v w (buy user test_id k t bought created found e) =
    ap (λ u. is_admin_in id u.users)
      (purchase_row (new_purchase user test_id t bought k created) v w e)
write_admins id v w (build x e) = ap (λ u. is_admin_in id u.users) (environment_row x v w e)
write_admins id v w (set_environment k s e) = ap (λ u. is_admin_in id u.users) e
write_admins id v w (admit s e) = ap (λ u. is_admin_in id u.users) (session_row s v w e)
write_admins id v w (enter k t e) = ap (λ u. is_admin_in id u.users) e
write_admins id v w (add_product p e) = ap (λ u. is_admin_in id u.users) (product_row p v w e)
write_admins id v w (add_test t allowed e) = ap (λ u. is_admin_in id u.users) (test_row t v w e)
write_admins id v w (change_product p e) = ap (λ u. is_admin_in id u.users) (product_set p v w e)
write_admins id v w (change_test t allowed e) = ap (λ u. is_admin_in id u.users) e
write_admins id v w (remove_test k e) = ap (λ u. is_admin_in id u.users) (test_gone k v w e)
write_admins id v w (remove_product k e) = ap (λ u. is_admin_in id u.users) (product_gone k v w e)
write_admins id v w (add_user u plain e) = user_added id u v w e plain
write_admins id v w (add_version x e) = ap (λ u. is_admin_in id u.users) (version_row x v w e)
write_admins id v w (add_task t e) = ap (λ u. is_admin_in id u.users) (task_row t v w e)
write_admins id v w (add_check c e) = ap (λ u. is_admin_in id u.users) (check_row c v w e)

writes_admins : (id : Uuid) (v w : World) → v ↝* w → is_admin_in id w.users ≡ is_admin_in id v.users
writes_admins id v _ none_yet = refl
writes_admins id v _ (more {u} {w} steps step) =
    write_admins id u w step ∙ writes_admins id v u steps

found_admin :
    (id : Uuid) (u : User) (l : List User)
    → lookup Users.key id l ≡ some u
    → u.is_admin ≡ true
    → is_admin_in id l ≡ true
unfolding lookup
found_admin id u [] found admin = cc
found_admin id u (v ∷ l) found admin = ground (arith, found_admin id u l)

-- Whatever events run, one after the other in any order and with any failures, registrations among
-- them: a user who was no administrator before them is refused by the middleware in front of every
-- handler for administrators, with 401 or 403, and nothing is written.
pub Runs-admin_only :
    {A : Type 0} (proxy : Option Text) (o : Outside) (id : Uuid) (next : Handler A) (v w : World)
    → Runs proxy v w
    → is_admin_in id v.users ≡ false
    → (((admin_only o (some id) next w).0 ≡ unauthorized not_signed_in)
        ⊎ ((admin_only o (some id) next w).0 ≡ forbidden is_forbidden))
      × ((admin_only o (some id) next w).1
          ≡ record w { calls = (admin_only o (some id) next w).1.calls })
Runs-admin_only proxy o id next v w run plain =
    let still = writes_admins id v w (Runs-writes proxy v w run) in
    elim (admin_only_lem o (some id) next w) [
      | inl (k, u, same, found, admin, _) ↦
          let equal : id ≡ k = ground arith in
          let seen = found_admin k u w.users found admin in
          let wrong : is_admin_in id w.users ≡ true =
            ap (λ j. is_admin_in j w.users) equal ∙ seen in
          let right : is_admin_in id w.users ≡ false = still ∙ plain in cc
      | inr refused ↦ refused
    ]
