-- ===== src/Importer/Files.antt =====
-- internal/importer/importer.go up to the database: the walk over the repository, the three kinds of
-- files, and the commit. The file system, package yaml and git are one value, `Repository`.
use painkiller.Prelude.{
  Bool, ◌&&◌, not, Option, none, some, List, [], ◌∷◌, Text, codes, text_eq, trim_space,
  if◌then◌else◌,
}
use painkiller.Scenarios.Schema.{Scenario, Task, ChecksFile}
use painkiller.Scenarios.Validate.{Invalid, Verdict, valid, invalid, validate, validate_checks}

-- A call of the function that `filepath.Walk` takes: with an error, or with a path, the name of its
-- last element and whether it is a directory.
pub data Visit : Type 0 where
  broken : Visit
  visited : Text → Text → Bool → Visit

pub record Repository : Type 0 where
  -- `filepath.Walk` from the root, in its order
  pub walk : List Visit
  -- `os.ReadFile`
  pub read_file : Text → Option Text
  -- `yaml.Unmarshal` into the two types
  pub decode_scenario : Text → Option Scenario
  pub decode_checks : Text → Option ChecksFile
  -- `filepath.Dir` and `filepath.Join`
  pub dir : Text → Text
  pub join : Text → Text → Text
  -- What `git rev-parse HEAD` prints.
  pub rev_parse : Option Text

pub data ImportError : Type 0 where
  empty_path walking : ImportError
  reading_scenario parsing_scenario reading_checks parsing_checks : ImportError
  validating_scenario validating_checks : Text → Invalid → ImportError
  reading_prompt : Text → ImportError
  -- The file that could not be parsed.
  parsing : Text → ImportError → ImportError

pub data Parsed (A : Type 0) : Type 0 where
  parsed : A → Parsed A
  failed : ImportError → Parsed A

-- `parsedScenario`, less `Dir`, which nothing reads. A map is a list in which the latest entry for a
-- key stands first.
pub record ParsedScenario : Type 0 where
  pub scenario : Scenario
  pub checks : ChecksFile
  pub prompts : List (Text × Text)

-- `m[key]`
unfoldable pub get : {A : Type 0} → Text → List (Text × A) → Option A
get key [] = none
get key ((k, a) ∷ m) = if text_eq k key then some a else get key m

-- `if err != nil { return nil, fmt.Errorf(…) }`
abbrev pub or_stop : {A B : Type 0} → Option A → ImportError → (A → Parsed B) → Parsed B
or_stop none e rest = failed e
or_stop (some a) e rest = rest a

abbrev pub then_parse : {A B : Type 0} → Parsed A → (A → Parsed B) → Parsed B
then_parse (failed e) rest = failed e
then_parse (parsed a) rest = rest a

-- `if err := Validate(…); err != nil { return nil, … }`
abbrev pub when_valid : {B : Type 0} → Verdict → (Invalid → ImportError) → Parsed B → Parsed B
when_valid valid e rest = rest
when_valid (invalid i) e rest = failed (e i)

-- The paths that the walk collects, to those that it has; the first error ends the walk.
unfoldable pub scenario_files : List Visit → Parsed (List Text)
scenario_files [] = parsed []
scenario_files (broken ∷ _) = failed walking
scenario_files (visited path name is_dir ∷ rest) = then_parse (scenario_files rest) λ others.
    parsed (if not is_dir && text_eq name (codes "scenario.yaml") then path ∷ others else others)

-- `fmt.Errorf("parsing %s: %w", sf, err)`
abbrev pub parsing_failed : {A : Type 0} → Text → Parsed A → Parsed A
parsing_failed file (failed e) = failed (parsing file e)
parsing_failed file (parsed a) = parsed a

module _ (repo : Repository) where
  -- The loop over the tasks, with the map so far.
  unfoldable pub read_prompts : Text → List Task → List (Text × Text) → Parsed (List (Text × Text))
  read_prompts dir [] prompts = parsed prompts
  read_prompts dir (t ∷ ts) prompts =
      or_stop (repo.read_file (repo.join dir t.prompt_file)) (reading_prompt t.prompt_file)
        λ content. read_prompts dir ts ((t.id, content) ∷ prompts)

  -- `filepath.Join(scenarioDir, "checks", "checks.yaml")`
  abbrev pub checks_path : Text → Text
  checks_path dir = repo.join (repo.join dir (codes "checks")) (codes "checks.yaml")

  unfoldable pub parse_scenario : Text → Parsed ParsedScenario
  parse_scenario file =
      let dir = repo.dir file in
      or_stop (repo.read_file file) reading_scenario λ content.
        or_stop (repo.decode_scenario content) parsing_scenario λ s.
          when_valid (validate s) (validating_scenario s.id) (
            or_stop (repo.read_file (checks_path dir)) reading_checks λ content.
              or_stop (repo.decode_checks content) parsing_checks λ cf.
                when_valid (validate_checks cf s) (validating_checks s.id) (
                  then_parse (read_prompts dir s.tasks [])
                    λ prompts. parsed (record { scenario = s; checks = cf; prompts = prompts })))

  -- One file that cannot be parsed stops all.
  unfoldable pub parse_all : List Text → Parsed (List ParsedScenario)
  parse_all [] = parsed []
  parse_all (file ∷ files) =
      then_parse (parsing_failed file (parse_scenario file))
        λ ps. then_parse (parse_all files) λ rest. parsed (ps ∷ rest)

  unfoldable pub discover_scenarios : Parsed (List ParsedScenario)
  discover_scenarios = then_parse (scenario_files repo.walk) parse_all

  abbrev or_local : Option Text → Text
  or_local none = codes "local"
  or_local (some out) = trim_space out

  unfoldable pub resolve_git_commit : Text
  resolve_git_commit = or_local repo.rev_parse
