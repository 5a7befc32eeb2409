-- ===== src/Scenarios/Validate.antt =====
-- internal/scenarios/validate.go. The sets of identifiers (`map[string]bool`) are lists.
use painkiller.Prelude.{
  ℕ, pos, leb_ℤ, leb, ◌+◌, ◌==◌, Bool, true, false, not, ◌&&◌, ◌||◌, List, [], ◌∷◌, map, any, Text,
  codes, text_eq, is_empty, if◌then◌else◌,
}
use painkiller.Scenarios.Schema.{Node, Cluster, Task, Scenario, Check, ChecksFile}

pub data Invalid : Type 0 where
  scenario_id_required title_required duration_not_positive : Invalid
  access_window_not_positive attempts_not_positive cluster_required : Invalid
  cluster_id_required duplicate_cluster cluster_without_nodes : Invalid
  node_name_required duplicate_node invalid_role template_required : Invalid
  task_required task_id_required duplicate_task unknown_cluster : Invalid
  points_not_positive prompt_file_required : Invalid
  check_required check_id_required duplicate_check unknown_task : Invalid
  type_required command_required : Invalid

-- An `error`: nil, or what is wrong.
pub data Verdict : Type 0 where
  valid : Verdict
  invalid : Invalid → Verdict

-- `if c { return err }`, then the rest.
abbrev pub unless : Bool → Invalid → Verdict → Verdict
unless true e rest = invalid e
unless false e rest = rest

infixl 5 ◌and◌
abbrev pub ◌and◌ : Verdict → Verdict → Verdict
◌and◌ valid v = v
◌and◌ (invalid e) v = invalid e

-- `seen[id]`
unfoldable pub is_in : Text → List Text → Bool
is_in id seen = any (λ s. text_eq s id) seen

-- `unicode.ToLower` on ASCII, and on the two other letters whose lower case is ASCII: the Kelvin
-- sign and the dotted capital I. Every other letter stays outside ASCII, here as it was.
abbrev lower : ℕ → ℕ
lower c =
    if leb b'A' c && leb c b'Z'
    then c + 32
    else if c == 0x212a
    then b'k'
    else if c == 0x130
    then b'i'
    else c

-- `role != "control-plane" && role != "worker"`, after strings.ToLower
pub is_role : Text → Bool
is_role role =
    let low = map lower role in text_eq low (codes "control-plane") || text_eq low (codes "worker")

pub check_nodes : List Text → List Node → Verdict
check_nodes node_names [] = valid
check_nodes node_names (n ∷ ns) =
    let rest = check_nodes (n.name ∷ node_names) ns in
    unless (is_empty n.name) node_name_required (
      unless (is_in n.name node_names) duplicate_node (
        unless (not (is_role n.role)) invalid_role
          (unless (is_empty n.template) template_required rest)))

abbrev no_nodes : List Node → Bool
no_nodes [] = true
no_nodes (_ ∷ _) = false

pub check_clusters : List Text → List Cluster → Verdict
check_clusters cluster_ids [] = valid
check_clusters cluster_ids (c ∷ cs) =
    let rest = check_clusters (c.id ∷ cluster_ids) cs in
    unless (is_empty c.id) cluster_id_required (
      unless (is_in c.id cluster_ids) duplicate_cluster
        (unless (no_nodes c.nodes) cluster_without_nodes (check_nodes [] c.nodes and rest)))

unfoldable pub check_tasks : List Text → List Text → List Task → Verdict
check_tasks cluster_ids task_ids [] = valid
check_tasks cluster_ids task_ids (t ∷ ts) =
    let rest = check_tasks cluster_ids (t.id ∷ task_ids) ts in
    unless (is_empty t.id) task_id_required (
      unless (is_in t.id task_ids) duplicate_task (
        unless (not (is_in t.cluster_id cluster_ids)) unknown_cluster (
          unless (leb_ℤ t.points (pos 0)) points_not_positive
            (unless (is_empty t.prompt_file) prompt_file_required rest))))

abbrev pub no_clusters : List Cluster → Bool
no_clusters [] = true
no_clusters (_ ∷ _) = false

abbrev pub no_tasks : List Task → Bool
no_tasks [] = true
no_tasks (_ ∷ _) = false

pub cluster_ids_of : Scenario → List Text
cluster_ids_of s = map (λ c. c.id) s.topology.clusters

unfoldable pub validate : Scenario → Verdict
unfolding check_nodes check_clusters check_tasks is_in is_role cluster_ids_of
validate s = unless (is_empty s.id) scenario_id_required (
    unless (is_empty s.title) title_required (
      unless (leb_ℤ s.duration_minutes (pos 0)) duration_not_positive (
        unless (leb_ℤ s.access_window_hours (pos 0)) access_window_not_positive (
          unless (leb_ℤ s.attempts_allowed (pos 0)) attempts_not_positive (
            unless (no_clusters s.topology.clusters) cluster_required (
              check_clusters [] s.topology.clusters
              and unless (no_tasks s.tasks) task_required
                  (check_tasks (cluster_ids_of s) [] s.tasks)))))))

abbrev no_checks : List Check → Bool
no_checks [] = true
no_checks (_ ∷ _) = false

unfoldable pub check_checks : List Text → List Text → List Text → List Check → Verdict
check_checks task_ids cluster_ids check_ids [] = valid
check_checks task_ids cluster_ids check_ids (c ∷ cs) =
    let rest = check_checks task_ids cluster_ids (c.id ∷ check_ids) cs in
    unless (is_empty c.id) check_id_required (
      unless (is_in c.id check_ids) duplicate_check (
        unless (not (is_in c.task_id task_ids)) unknown_task (
          unless (not (is_in c.cluster_id cluster_ids)) unknown_cluster (
            unless (is_empty c.check_type) type_required (
              unless (is_empty c.command) command_required
                (unless (leb_ℤ c.points (pos 0)) points_not_positive rest))))))

unfoldable pub validate_checks : ChecksFile → Scenario → Verdict
unfolding check_checks is_in cluster_ids_of
validate_checks cf s =
    unless (no_checks cf.checks) check_required
      (check_checks (map (λ t. t.id) s.tasks) (cluster_ids_of s) [] cf.checks)
