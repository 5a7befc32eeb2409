-- ===== src/Example.antt =====
-- A small shop on which the tests of the other modules run: one learner, one free test with one task, one purchase
-- with two attempts left, and attempts at four places of their life.
use painkiller.Prelude.{ℕ, ◌+◌, pos, Bool, true, false, none, some, [], ◌∷◌}
use painkiller.Json.{Json}
use painkiller.Outside.{Outside, clean}
use painkiller.Models.{
  Uuid, User, Product, Test, PurchasedTest, ScenarioVersion, Task, Check, Attempt, AttemptStatus,
  Environment, Session, environment_ready, running, grading, scored, ready,
}
use painkiller.Store.{World}

-- A history in which the calls that `down` names fail.
abbrev pub history : (ℕ → Bool) → Outside
history down = record {
  fails = down;
  clock = λ n. pos n;
  new_uuid = λ n. n + 100;
  uuid_string = λ _. [];
  pick = λ _. 0;
  generate_key = λ _. none;
  create_environment = λ _ _. none;
  destroy_environment = λ _ _. true;
  provision = λ _ _. true;
  ssh_parse = λ _. true;
  ssh_dial = λ _ _. true;
  ssh_session = λ _. true;
  ssh_run = λ _ _. clean;
  ssh_output = λ _. ([], []);
}

abbrev pub calm : Outside
calm = history (λ _. false)

abbrev pub learner : User
learner = record { id = 1; email = []; password_hash = []; is_admin = false; created_at = pos 0 }

abbrev pub free_product : Product
free_product = record {
  id = 2;
  stripe_price_id = none;
  title = [];
  description = [];
  is_free = true;
  created_at = pos 0;
}

abbrev pub version : ScenarioVersion
version = record {
  id = 3;
  external_id = [];
  title = [];
  git_commit = [];
  duration_minutes = pos 60;
  access_window_hours = pos 24;
  attempts_allowed = pos 2;
  topology_json = Json.null;
  created_at = pos 0;
}

abbrev pub free_test : Test
free_test = record {
  id = 4;
  product_id = 2;
  scenario_version_id = 3;
  duration_minutes = pos 60;
  access_window_hours = pos 24;
  attempts_allowed = pos 2;
  created_at = pos 0;
}

abbrev pub purchase : PurchasedTest
purchase = record {
  id = 5;
  user_id = 1;
  test_id = 4;
  stripe_session_id = none;
  expires_at = pos 1000;
  attempts_remaining = pos 2;
  created_at = pos 0;
}

abbrev pub attempt_at : Uuid → AttemptStatus → Attempt
attempt_at id status = record {
  id = id;
  purchased_test_id = 5;
  status = status;
  score = some (pos 3);
  max_score = some (pos 4);
  started_at = none;
  ended_at = none;
  created_at = pos 0;
}

abbrev pub environment : Environment
environment = record {
  id = 11;
  attempt_id = 6;
  status = ready;
  workstation_ip = some [];
  provider_metadata = Json.null;
  ssh_private_key = [];
  created_at = pos 0;
}

abbrev pub session : Session
session = record {
  id = 10;
  attempt_id = 6;
  environment_id = 11;
  terminal_token = [];
  first_opened_at = none;
  created_at = pos 0;
}

abbrev pub task : Task
task = record {
  id = 13;
  scenario_version_id = 3;
  external_id = [];
  cluster_id = [];
  kube_context = [];
  points = pos 4;
  prompt = [];
  created_at = pos 0;
}

abbrev pub check : Check
check = record {
  id = 12;
  task_id = 13;
  external_id = [];
  cluster_id = [];
  check_type = [];
  command = [];
  points = pos 4;
  created_at = pos 0;
}

abbrev pub shop : World
shop = record {
  users = learner ∷ [];
  products = free_product ∷ [];
  tests = free_test ∷ [];
  purchased_tests = purchase ∷ [];
  scenario_versions = version ∷ [];
  tasks = task ∷ [];
  checks = check ∷ [];
  attempts =
      attempt_at 6 environment_ready
      ∷ attempt_at 7 running
      ∷ attempt_at 8 grading
      ∷ attempt_at 9 scored
      ∷ [];
  environments = environment ∷ [];
  sessions = session ∷ [];
  jobs = [];
  calls = 0;
}
