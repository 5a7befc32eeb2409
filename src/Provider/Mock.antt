-- ===== src/Provider/Mock.antt =====
-- internal/provider/mock: environments that are entries of a map. The sleep before each call is left
-- out.
use painkiller.Prelude.{
  ℕ, suc, ◌≡◌, refl, Bool, true, false, Option, none, some, List, [], ◌∷◌, ◌++◌, if◌then◌else◌,
  Text, codes, text_eq, text_eq_refl, decimal, arith,
}
use painkiller.Json.{Json, decode_struct, decode_members, decode_text, names}
use painkiller.Provider.{
  VmRequest, VmResult, ClusterRequest, EnvironmentSpec, ClusterResult, EnvironmentResult,
}
use painkiller.Orchestrator.Spec.{metadata_of}

pub record MockProvider : Type 0 where
  pub environments : List (Text × EnvironmentResult)
  pub next_ip : ℕ

-- `delete(m, key)`, `m[key] = value` and `m[key]`
unfoldable pub remove : {A : Type 0} → Text → List (Text × A) → List (Text × A)
remove key [] = []
remove key ((k, a) ∷ t) = let rest = remove key t in if text_eq k key then rest else (k, a) ∷ rest

unfoldable pub find_key : {A : Type 0} → Text → List (Text × A) → Option A
find_key key [] = none
find_key key ((k, a) ∷ t) = if text_eq k key then some a else find_key key t

abbrev pub store_key : {A : Type 0} → Text → A → List (Text × A) → List (Text × A)
store_key key a t = (key, a) ∷ remove key t

abbrev pub mock_vm : ℕ → Text → VmResult
mock_vm n hostname = record {
  provider_vm_id = codes "mock-vm-" ++ decimal n;
  ip_address = codes "127.0.0." ++ decimal n;
  hostname = hostname;
}

-- The loops over the nodes and the clusters, with `nextIP` as it is left.
unfoldable pub mock_nodes : ℕ → List VmRequest → List VmResult × ℕ
mock_nodes n [] = ([], n)
mock_nodes n (r ∷ rs) = let (vms, m) = mock_nodes (suc n) rs in (mock_vm n r.hostname ∷ vms, m)

unfoldable pub mock_clusters : ℕ → List ClusterRequest → List ClusterResult × ℕ
mock_clusters n [] = ([], n)
mock_clusters n (c ∷ cs) =
    let (nodes, m) = mock_nodes n c.nodes in
    let (rest, k) = mock_clusters m cs in (record { name = c.name; nodes = nodes } ∷ rest, k)

unfoldable pub create : EnvironmentSpec → MockProvider → EnvironmentResult × MockProvider
create spec p =
    let workstation = mock_vm p.next_ip spec.workstation.hostname in
    let (clusters, n) = mock_clusters (suc p.next_ip) spec.clusters in
    let result : EnvironmentResult = record { workstation = workstation; clusters = clusters } in
    (
      result,
      record {
        environments = store_key workstation.provider_vm_id result p.environments;
        next_ip = n;
      },
    )

abbrev decode_workstation : Json → Option Text
decode_workstation =
    decode_struct
      (λ key j t. if names key (codes "workstation_vm_id") then decode_text t j else some t) []

abbrev removed : MockProvider → Option Text → Bool × MockProvider
removed p none = (false, p)
removed p (some t) = (true, record p { environments = remove t p.environments })

-- `DestroyEnvironment` (true: no error)
unfoldable pub destroy : Json → MockProvider → Bool × MockProvider
destroy metadata p = removed p (decode_workstation metadata)

abbrev is_there : {A : Type 0} → Option A → Bool
is_there none = false
is_there (some _) = true

unfoldable pub get_vm_status : Text → MockProvider → Text
get_vm_status id p =
    if is_there (find_key id p.environments) then codes "running" else codes "destroyed"

find-remove : {A : Type 0} (key : Text) (t : List (Text × A)) → find_key key (remove key t) ≡ none
unfolding find_key remove
find-remove key [] = refl
find-remove key ((k, a) ∷ t) = ground (arith, find-remove key t)

remove-remove :
    {A : Type 0} (key : Text) (t : List (Text × A)) → remove key (remove key t) ≡ remove key t
unfolding remove
remove-remove key [] = refl
remove-remove key ((k, a) ∷ t) = ground (arith, remove-remove key t)

-- The environment that was made last runs, and after its destruction with the metadata that the
-- orchestrator keeps of it it is destroyed, and the others are as they were.
pub status-create :
    (spec : EnvironmentSpec) (p : MockProvider)
    → let made = create spec p in
      let id = made.0.workstation.provider_vm_id in
      let gone = destroy (metadata_of made.0) made.1 in
      (get_vm_status id made.1 ≡ codes "running")
      × (gone.0 ≡ true)
      × (get_vm_status id gone.1 ≡ codes "destroyed")
      × (gone.1.environments ≡ remove id p.environments)
unfolding create get_vm_status find_key destroy metadata_of decode_struct decode_members text_eq
    remove
status-create spec p =
    let id = codes "mock-vm-" ++ decimal p.next_ip in
    let same = text_eq_refl (decimal p.next_ip) in
    let once = find-remove id p.environments in
    let twice = remove-remove id p.environments in
    (ground arith, refl, ground (arith, find-remove id (remove id p.environments)), ground arith)
