-- ===== src/Importer/Read.antt =====
-- What the parsing of one scenario promises.
use painkiller.Prelude.{
  ◌≡◌, refl, ap, sym, ◌∙◌, Bool, true, false, List, [], ◌∷◌, Option, none, some, arith, All, Text,
  text_eq, text_eq_refl, text_eq_sound, inl, inr, Bool-cases, is_empty, leb_ℤ, pos, ◌≤ℤ◌,
}
use mathlib.Core.Path.{subst}
use painkiller.Scenarios.Schema.{Scenario, Task}
use painkiller.Scenarios.Validate.{
  Invalid, Verdict, valid, invalid, unless, ◌and◌, is_in, check_clusters, check_tasks,
  cluster_ids_of, no_clusters, no_tasks, validate, validate_checks,
}
use painkiller.Importer.Files.{
  Repository, ImportError, Parsed, parsed, failed, ParsedScenario, get, or_stop, then_parse,
  when_valid, checks_path, read_prompts, parse_scenario, parsing_failed, parse_all, scenario_files,
  discover_scenarios,
}

or_stop_ok :
    {A B : Type 0} (m : Option A) (e : ImportError) (f : A → Parsed B) (b : B)
    → or_stop m e f ≡ parsed b
    → (a : A) × (m ≡ some a) × (f a ≡ parsed b)
or_stop_ok none e f b h = cc
or_stop_ok (some a) e f b h = (a, refl, h)

then_parse_ok :
    {A B : Type 0} (m : Parsed A) (f : A → Parsed B) (b : B)
    → then_parse m f ≡ parsed b
    → (a : A) × (m ≡ parsed a) × (f a ≡ parsed b)
then_parse_ok (failed e) f b h = cc
then_parse_ok (parsed a) f b h = (a, refl, h)

when_valid_ok :
    {B : Type 0} (v : Verdict) (e : Invalid → ImportError) (rest : Parsed B) (b : B)
    → when_valid v e rest ≡ parsed b
    → (v ≡ valid) × (rest ≡ parsed b)
when_valid_ok valid e rest b h = (refl, h)
when_valid_ok (invalid i) e rest b h = cc

unless_ok :
    (c : Bool) (i : Invalid) (rest : Verdict)
    → unless c i rest ≡ valid
    → (c ≡ false) × (rest ≡ valid)
unless_ok true i rest h = cc
unless_ok false i rest h = (refl, h)

and_ok : (v u : Verdict) → (v and u) ≡ valid → (v ≡ valid) × (u ≡ valid)
and_ok valid u h = (refl, h)
and_ok (invalid i) u h = cc

-- The tasks have different names, none of which is in the list.
abbrev pub Distinct : List Text → List Task → Type 0
Distinct seen [] = Unit
Distinct seen (t ∷ ts) = (is_in t.id seen ≡ false) × Distinct (t.id ∷ seen) ts

tasks-Distinct :
    (clusters seen : List Text) (ts : List Task)
    → check_tasks clusters seen ts ≡ valid
    → Distinct seen ts
unfolding check_tasks
tasks-Distinct clusters seen [] h = tt
tasks-Distinct clusters seen (t ∷ ts) h =
    (ground arith, tasks-Distinct clusters (t.id ∷ seen) ts (ground arith))

-- What a valid scenario gives to the rows that are made of it.
pub validate-Distinct :
    (s : Scenario) → validate s ≡ valid → Distinct [] s.tasks × (pos 1 ≤ℤ s.attempts_allowed)
unfolding validate
validate-Distinct s h =
    let (_, h₁) = unless_ok (is_empty s.id) _ _ h in
    let (_, h₂) = unless_ok (is_empty s.title) _ _ h₁ in
    let (_, h₃) = unless_ok (leb_ℤ s.duration_minutes (pos 0)) _ _ h₂ in
    let (_, h₄) = unless_ok (leb_ℤ s.access_window_hours (pos 0)) _ _ h₃ in
    let (allowed, h₅) = unless_ok (leb_ℤ s.attempts_allowed (pos 0)) _ _ h₄ in
    let (_, h₆) = unless_ok (no_clusters s.topology.clusters) _ _ h₅ in
    let (_, h₇) = and_ok (check_clusters [] s.topology.clusters) _ h₆ in
    let (_, h₈) = unless_ok (no_tasks s.tasks) _ _ h₇ in
    (tasks-Distinct (cluster_ids_of s) [] s.tasks h₈, ground (arith, allowed))

other_name :
    (new key : Text) (seen : List Text)
    → is_in new seen ≡ false
    → is_in key seen ≡ true
    → text_eq new key ≡ false
other_name new key seen fresh there = elim (Bool-cases (text_eq new key)) [
  | inl same ↦
      let equal = text_eq_sound new key same in
      let wrong : is_in new seen ≡ true = ap (λ k. is_in k seen) equal ∙ there in cc
  | inr other ↦ other
]

module _ (repo : Repository) (dir : Text) where
  abbrev prompt_of : Task → Option Text
  prompt_of t = repo.read_file (repo.join dir t.prompt_file)

  -- A name that is none of the tasks' keeps its entry.
  kept_prompt :
      (ts : List Task) (seen : List Text) (old m : List (Text × Text)) (key : Text)
      → is_in key seen ≡ true
      → Distinct seen ts
      → read_prompts repo dir ts old ≡ parsed m
      → get key m ≡ get key old
  unfolding read_prompts get is_in
  kept_prompt [] seen old m key there d h =
      let same : old ≡ m = ground arith in ap (get key) (sym same)
  kept_prompt (t ∷ ts) seen old m key there (new, d) h =
      let (content, found, rest) = or_stop_ok (prompt_of t) _ _ m h in
      let other = other_name t.id key seen new there in
      let later =
        kept_prompt ts (t.id ∷ seen) ((t.id, content) ∷ old) m key (ground (arith, there)) d rest in
      ground (arith, later, other)

  prompts_read :
      (ts : List Task) (seen : List Text) (old m : List (Text × Text))
      → Distinct seen ts
      → read_prompts repo dir ts old ≡ parsed m
      → All (λ t. get t.id m ≡ prompt_of t) ts
  unfolding read_prompts get is_in
  prompts_read [] seen old m d h = tt
  prompts_read (t ∷ ts) seen old m (new, d) h =
      let (content, found, rest) = or_stop_ok (prompt_of t) _ _ m h in
      let own = text_eq_refl t.id in
      let later =
        kept_prompt ts (t.id ∷ seen) ((t.id, content) ∷ old) m t.id (ground (arith, own)) d rest in
      (
        ground (arith, later, own, found),
        prompts_read ts (t.id ∷ seen) ((t.id, content) ∷ old) m d rest,
      )

parsed_same : {A : Type 0} (a b : A) → parsed a ≡ parsed b → a ≡ b
parsed_same a b h = cc

-- If a scenario file is parsed, then the scenario and its checks are valid, and the text kept for
-- each task is that of its own prompt file.
pub parse_scenario_ok :
    (repo : Repository) (file : Text) (ps : ParsedScenario)
    → parse_scenario repo file ≡ parsed ps
    → (validate ps.scenario ≡ valid)
      × (validate_checks ps.checks ps.scenario ≡ valid)
      × All
          (λ t. get t.id ps.prompts ≡ repo.read_file (repo.join (repo.dir file) t.prompt_file))
          ps.scenario.tasks
unfolding parse_scenario
parse_scenario_ok repo file ps h =
    let (content, _, h₁) = or_stop_ok (repo.read_file file) _ _ ps h in
    let (s, _, h₂) = or_stop_ok (repo.decode_scenario content) _ _ ps h₁ in
    let (fine, h₃) = when_valid_ok (validate s) _ _ ps h₂ in
    let (content', _, h₄) =
      or_stop_ok (repo.read_file (checks_path repo (repo.dir file))) _ _ ps h₃ in
    let (cf, _, h₅) = or_stop_ok (repo.decode_checks content') _ _ ps h₄ in
    let (fine', h₆) = when_valid_ok (validate_checks cf s) _ _ ps h₅ in
    let (prompts, read, h₇) =
      then_parse_ok (read_prompts repo (repo.dir file) s.tasks []) _ ps h₆ in
    let same : record { scenario = s; checks = cf; prompts = prompts } ≡ ps = parsed_same _ ps h₇ in
    let distinct = (validate-Distinct s fine).0 in
    subst
      (λ (q : ParsedScenario).
        (validate q.scenario ≡ valid)
        × (validate_checks q.checks q.scenario ≡ valid)
        × All (λ t. get t.id q.prompts ≡ repo.read_file (repo.join (repo.dir file) t.prompt_file))
            q.scenario.tasks)
      same (fine, fine', prompts_read repo (repo.dir file) s.tasks [] [] prompts distinct read)

parsing_failed_ok :
    {A : Type 0} (file : Text) (m : Parsed A) (a : A)
    → parsing_failed file m ≡ parsed a
    → m ≡ parsed a
parsing_failed_ok file (failed e) a h = cc
parsing_failed_ok file (parsed b) a h = h

-- Every scenario that is found allows an attempt.
pub parse_all-allows :
    (repo : Repository) (files : List Text) (all : List ParsedScenario)
    → parse_all repo files ≡ parsed all
    → All (λ ps. pos 1 ≤ℤ ps.scenario.attempts_allowed) all
unfolding parse_all
parse_all-allows repo [] all h =
    let same : [] ≡ all = parsed_same [] all h in
    subst (All (λ ps. pos 1 ≤ℤ ps.scenario.attempts_allowed)) same tt
parse_all-allows repo (file ∷ files) all h =
    let (ps, read, h₁) = then_parse_ok (parsing_failed file (parse_scenario repo file)) _ all h in
    let (rest, others, h₂) = then_parse_ok (parse_all repo files) _ all h₁ in
    let same : ps ∷ rest ≡ all = parsed_same (ps ∷ rest) all h₂ in
    let fine = (parse_scenario_ok repo file ps (parsing_failed_ok file _ ps read)).0 in
    subst (All (λ ps. pos 1 ≤ℤ ps.scenario.attempts_allowed)) same
      ((validate-Distinct ps.scenario fine).1, parse_all-allows repo files rest others)

pub discover-allows :
    (repo : Repository) (all : List ParsedScenario)
    → discover_scenarios repo ≡ parsed all
    → All (λ ps. pos 1 ≤ℤ ps.scenario.attempts_allowed) all
unfolding discover_scenarios
discover-allows repo all h =
    let (files, found, rest) = then_parse_ok (scenario_files repo.walk) _ all h in
    parse_all-allows repo files all rest
