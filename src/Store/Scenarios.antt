-- ===== src/Store/Scenarios.antt =====
-- internal/store/scenario_store.go over `scenario_versions`, `tasks` and `checks`.
use painkiller.Prelude.{
  ℕ, Bool, ◌||◌, ◌&&◌, not, Option, none, some, List, [], ◌∷◌, ◌++◌, ⊤, if◌then◌else◌, ◌==◌, any,
  find, select, Text, text_eq,
}
use painkiller.Outside.{Outside}
use painkiller.Models.{Uuid, ScenarioVersion, Task, Check}
use painkiller.Store.State.{World, Action, query, exec}
use painkiller.Store.Table.{lookup, has}
use painkiller.Store.Rows.{order_by, order_by_desc}

abbrev pub key : ScenarioVersion → ℕ
key v = v.id

-- `external_id = $1 AND git_commit = $2`
abbrev pub is_version : Text → Text → ScenarioVersion → Bool
is_version external commit v = text_eq v.external_id external && text_eq v.git_commit commit

-- `id` is unique, and so is `(external_id, git_commit)`.
abbrev pub insert_version : ScenarioVersion → World → Option World
insert_version v w =
    if has key v.id w.scenario_versions
      || any (is_version v.external_id v.git_commit) w.scenario_versions
    then none
    else some (record w { scenario_versions = w.scenario_versions ++ v ∷ [] })

abbrev pub insert_task : Task → World → Option World
insert_task t w =
    if has (λ s. s.id) t.id w.tasks || not (has key t.scenario_version_id w.scenario_versions)
    then none
    else some (record w { tasks = w.tasks ++ t ∷ [] })

abbrev pub insert_check : Check → World → Option World
insert_check c w =
    if has (λ d. d.id) c.id w.checks || not (has (λ t. t.id) c.task_id w.tasks)
    then none
    else some (record w { checks = w.checks ++ c ∷ [] })

-- `checks c JOIN tasks t ON c.task_id = t.id WHERE t.scenario_version_id = $1`
abbrev pub checks_of : Uuid → World → List Check
checks_of version w =
    select (λ c. any (λ t. t.id == c.task_id && t.scenario_version_id == version) w.tasks) w.checks

module _ (o : Outside) where
  unfoldable pub create_version : ScenarioVersion → Action ⊤
  create_version v = exec o (insert_version v)

  unfoldable pub get_version : Uuid → Action ScenarioVersion
  get_version id = query o (λ _ w. lookup key id w.scenario_versions)

  unfoldable pub get_version_by_external_id : Text → Text → Action ScenarioVersion
  get_version_by_external_id external commit =
      query o (λ _ w. find (is_version external commit) w.scenario_versions)

  unfoldable pub list_versions : Action (List ScenarioVersion)
  list_versions = query o (λ _ w. some (order_by_desc (λ v. v.created_at) w.scenario_versions))

  unfoldable pub create_task : Task → Action ⊤
  create_task t = exec o (insert_task t)

  unfoldable pub create_check : Check → Action ⊤
  create_check c = exec o (insert_check c)

  unfoldable pub list_checks_by_scenario_version : Uuid → Action (List Check)
  list_checks_by_scenario_version version =
      query o (λ _ w. some (order_by (λ c. c.created_at) (checks_of version w)))

  unfoldable pub list_tasks_by_scenario_version : Uuid → Action (List Task)
  list_tasks_by_scenario_version version = query o (λ _ w.
      some (order_by (λ t. t.created_at) (select (λ t. t.scenario_version_id == version) w.tasks)))
