-- ===== src/Importer/Examples.antt =====
-- The theorems on the importer at work: one scenario with a task and a check, in an empty shop.
use painkiller.Prelude.{
  pos, ◌≡◌, refl, false, none, some, [], ◌∷◌, Text, codes, text_eq, ◌==◌, All, ◌⊎◌, arith,
}
use painkiller.Outside.{Outside}
use painkiller.Store.{World, ok, count_call}
use painkiller.Store.Table.{has}
use painkiller.Example.{shop, calm, history}
use painkiller.Scenarios.Schema.{Scenario, ChecksFile}
use painkiller.Scenarios.Validate.{valid, validate, validate_checks}
use painkiller.Importer.Files.{
  Repository, ParsedScenario, parsed, get, visited, parse_scenario, read_prompts,
}
use painkiller.Importer.Rows.{import_parsed_scenario}
use painkiller.Importer.Imported.{Imported}
use painkiller.Importer.Once.{import_parsed_scenario_once}
use painkiller.Importer.Read.{parse_scenario_ok}
use painkiller.Importer.Complete.{AllFresh, import_parsed_scenario_total}

abbrev scenario : Scenario
scenario = record {
  id = codes "s";
  title = codes "S";
  duration_minutes = pos 60;
  access_window_hours = pos 24;
  attempts_allowed = pos 2;
  topology = record {
    clusters =
        record {
          id = codes "c";
          display_name = [];
          kube_context = [];
          nodes = record { name = codes "n"; role = codes "worker"; template = codes "t" } ∷ [];
        }
        ∷ [];
  };
  tasks =
      record {
        id = codes "a";
        cluster_id = codes "c";
        kube_context = [];
        points = pos 3;
        prompt_file = codes "a.md";
      }
      ∷ [];
}

abbrev checks_file : ChecksFile
checks_file = record {
  checks =
      record {
        id = codes "k";
        task_id = codes "a";
        cluster_id = codes "c";
        check_type = codes "script";
        command = codes "true";
        points = pos 3;
      }
      ∷ [];
}

-- A repository with the one scenario, every file of which has the same text.
abbrev repository : Repository
repository = record {
  walk = visited (codes "s/scenario.yaml") (codes "scenario.yaml") false ∷ [];
  read_file = λ _. some (codes "x");
  decode_scenario = λ _. some scenario;
  decode_checks = λ _. some checks_file;
  dir = λ path. path;
  join = λ a b. b;
  rev_parse = none;
}

abbrev parsed_one : ParsedScenario
parsed_one = record {
  scenario = scenario;
  checks = checks_file;
  prompts = (codes "a", codes "x") ∷ [];
}

parse_one : parse_scenario repository (codes "s/scenario.yaml") ≡ parsed parsed_one
unfolding parse_scenario read_prompts validate validate_checks text_eq
parse_one = refl

abbrev commit : Text
commit = codes "local"

-- The statement that inserts the task fails.
abbrev failing : Outside
failing = history (λ n. n == 5)

shop-AllFresh : AllFresh calm (count_call shop)
unfolding has
shop-AllFresh = (
  (λ n h. ground arith),
  (λ n h. ground arith),
  (λ n h. ground arith),
  (λ n h. ground arith),
  (λ n h. ground arith),
)

import_parsed_scenario_total_example :
    (import_parsed_scenario calm parsed_one commit shop).0 ≡ ok tt
unfolding text_eq
import_parsed_scenario_total_example =
    import_parsed_scenario_total calm repository (codes "s/scenario.yaml") parsed_one commit shop
      (λ n. refl) (λ m n h. omega (arith, h)) shop-AllFresh refl parse_one

abbrev imported : World
imported = (import_parsed_scenario calm parsed_one commit shop).1

-- The import that fails at the task, and the next one.
abbrev broken_off : World
broken_off = (import_parsed_scenario failing parsed_one commit shop).1

import_parsed_scenario_once_example :
    (broken_off ≡ record shop { calls = broken_off.calls })
    ⊎ (import_parsed_scenario calm parsed_one commit broken_off ≡ (ok tt, count_call broken_off))
import_parsed_scenario_once_example =
    import_parsed_scenario_once failing calm parsed_one commit shop refl

parse_scenario_ok_example :
    (validate scenario ≡ valid)
    × (validate_checks checks_file scenario ≡ valid)
    × All (λ t. get t.id parsed_one.prompts ≡ some (codes "x")) scenario.tasks
parse_scenario_ok_example =
    parse_scenario_ok repository (codes "s/scenario.yaml") parsed_one parse_one
