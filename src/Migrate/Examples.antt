-- ===== src/Migrate/Examples.antt =====
-- The theorem on the migrations at work: on the way down, the queue's migrations fail.
use painkiller.Prelude.{true, none, some, [], pos, codes}
use painkiller.Migrate.{Tools, migrated, migrate}
use painkiller.Migrate.Plan.{Ordered, plan, migrate-Ordered}

abbrev tools : Tools
tools = record {
  sql_open = λ _. true;
  with_instance = true;
  absolute = some;
  iofs_new = λ _. true;
  new_with_instance = true;
  pool_new = λ _. true;
  migrator_new = true;
  migrate_app = λ _. migrated;
  migrate_river = λ _. none;
}

migrate-Ordered_example :
    Ordered
      (plan (codes "down") (pos 1))
      (migrate tools [] (codes "migrations") (codes "down") (pos 1))
migrate-Ordered_example = migrate-Ordered tools (pos 1) [] (codes "migrations") (codes "down")
