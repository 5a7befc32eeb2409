-- ===== src/Lifecycle/Stocked.antt =====
-- Every write of the program keeps the constraints of the users and of the tables of the importer.
use painkiller.Prelude.{◌≡◌, true, false, some, arith, sym}
use mathlib.Core.Path.{subst}
use painkiller.Models.{User, ScenarioVersion, Task, Check}
use painkiller.Store.{World}
use painkiller.Store.Users
use painkiller.Store.Scenarios
use painkiller.Store.Table.{has}
use painkiller.Store.Constraints.{has_still, insert_row, weaken_rows}
use painkiller.Attempts.Service.{new_attempt}
use painkiller.Billing.{new_purchase}
use painkiller.Lifecycle.Writes.{
  ◌↝◌, ◌↝*◌, none_yet, more, call, move, request, score, queue, take, give, buy, build,
  set_environment, admit, enter, add_product, add_test, change_product, change_test, remove_test,
  remove_product, add_user, add_version, add_task, add_check,
}
use painkiller.Lifecycle.Rows.{
  attempt_row, purchase_row, environment_row, session_row, product_row, product_set, product_gone,
  test_row, test_gone, user_row, version_row, task_row, check_row,
}
use painkiller.Lifecycle.Consistent.{IsStocked, GoodTask, GoodCheck}

user_inserted-IsStocked :
    (v w : World) (x : User) → Users.insert x v ≡ some w → IsStocked v → IsStocked w
user_inserted-IsStocked v w x inserted (u, s, t, c) =
    let fresh : has Users.key x.id v.users ≡ false = ground arith in
    subst IsStocked (sym (user_row x v w inserted))
      (insert_row Users.key (λ _. Unit) x v.users fresh tt u, s, t, c)

version_inserted-IsStocked :
    (v w : World) (x : ScenarioVersion)
    → Scenarios.insert_version x v ≡ some w
    → IsStocked v
    → IsStocked w
version_inserted-IsStocked v w x inserted (u, s, t, c) =
    let fresh : has Scenarios.key x.id v.scenario_versions ≡ false = ground arith in
    subst IsStocked (sym (version_row x v w inserted)) (
      u,
      insert_row Scenarios.key (λ _. Unit) x v.scenario_versions fresh tt s,
      weaken_rows (λ t. t.id) _ (GoodTask v.scenario_versions) v.tasks
          (λ t h. has_still Scenarios.key t.scenario_version_id v.scenario_versions x h) t,
      c,
    )

task_inserted-IsStocked :
    (v w : World) (x : Task) → Scenarios.insert_task x v ≡ some w → IsStocked v → IsStocked w
task_inserted-IsStocked v w x inserted (u, s, t, c) =
    let fresh : has (λ t. t.id) x.id v.tasks ≡ false = ground arith in
    let version : has Scenarios.key x.scenario_version_id v.scenario_versions ≡ true =
      ground arith in
    subst IsStocked (sym (task_row x v w inserted)) (
      u,
      s,
      insert_row (λ t. t.id) (GoodTask v.scenario_versions) x v.tasks fresh version t,
      weaken_rows (λ c. c.id) _ (GoodCheck v.tasks) v.checks
          (λ c h. has_still (λ t. t.id) c.task_id v.tasks x h) c,
    )

check_inserted-IsStocked :
    (v w : World) (x : Check) → Scenarios.insert_check x v ≡ some w → IsStocked v → IsStocked w
check_inserted-IsStocked v w x inserted (u, s, t, c) =
    let fresh : has (λ c. c.id) x.id v.checks ≡ false = ground arith in
    let task : has (λ t. t.id) x.task_id v.tasks ≡ true = ground arith in
    subst IsStocked (sym (check_row x v w inserted))
      (u, s, t, insert_row (λ c. c.id) (GoodCheck v.tasks) x v.checks fresh task c)

write-IsStocked : (v w : World) → v ↝ w → IsStocked v → IsStocked w
write-IsStocked v w (call n e) h = subst IsStocked (sym e) h
write-IsStocked v w (move k a to asked found valid e) h = subst IsStocked (sym e) h
write-IsStocked v w (request k purchase created e) h =
    subst IsStocked (sym (attempt_row (new_attempt k purchase created) v w e)) h
write-IsStocked v w (score k n m e) h = subst IsStocked (sym e) h
write-IsStocked v w (queue j e) h = subst IsStocked (sym e) h
write-IsStocked v w (take k e) h = subst IsStocked (sym e) h
write-IsStocked v w (give k e) h = subst IsStocked (sym e) h
write-IsStocked v w (buy user test_id k t bought created found e) h =
    subst IsStocked (sym (purchase_row (new_purchase user test_id t bought k created) v w e)) h
write-IsStocked v w (build x e) h = subst IsStocked (sym (environment_row x v w e)) h
write-IsStocked v w (set_environment k s e) h = subst IsStocked (sym e) h
write-IsStocked v w (admit s e) h = subst IsStocked (sym (session_row s v w e)) h
write-IsStocked v w (enter k t e) h = subst IsStocked (sym e) h
write-IsStocked v w (add_product p e) h = subst IsStocked (sym (product_row p v w e)) h
write-IsStocked v w (add_test t allowed e) h = subst IsStocked (sym (test_row t v w e)) h
write-IsStocked v w (change_product p e) h = subst IsStocked (sym (product_set p v w e)) h
write-IsStocked v w (change_test t allowed e) h = subst IsStocked (sym e) h
write-IsStocked v w (remove_test k e) h = subst IsStocked (sym (test_gone k v w e)) h
write-IsStocked v w (remove_product k e) h = subst IsStocked (sym (product_gone k v w e)) h
write-IsStocked v w (add_user u plain e) h = user_inserted-IsStocked v w u e h
write-IsStocked v w (add_version x e) h = version_inserted-IsStocked v w x e h
write-IsStocked v w (add_task t e) h = task_inserted-IsStocked v w t e h
write-IsStocked v w (add_check c e) h = check_inserted-IsStocked v w c e h

pub writes-IsStocked : (v w : World) → v ↝* w → IsStocked v → IsStocked w
writes-IsStocked v _ none_yet h = h
writes-IsStocked v _ (more {u} {w} steps step) h =
    write-IsStocked u w step (writes-IsStocked v u steps h)
