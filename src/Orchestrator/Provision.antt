-- ===== src/Orchestrator/Provision.antt =====
-- handleProvisionEnvironment and handleProvisionFailure of internal/orchestrator/provision_job.go.
use painkiller.Prelude.{Bool, not, ◌&&◌, Option, none, some, List, Text, ⊤, if◌then◌else◌}
use painkiller.Outside.{Outside}
use painkiller.Models.{
  Uuid, Instant, Attempt, Environment, Session, ScenarioVersion, AttemptStatus, status_eq,
  attempt_requested, environment_provisioning, environment_ready, provision_failed, ready,
  cleanup_environment,
}
use painkiller.Store.{
  World, Result, Action, Payload, pure, raise, or_wrap, ignore, ok, err, ◌>>=◌, ◌>>◌, now, new_uuid,
  count_call, attempt_payload, attempt_not_found, purchase_not_found, test_not_found,
  scenario_version_not_found, failed_to_transition, failed_to_unmarshal, json_error, key_error,
  provider_error, panic,
}
use painkiller.Store.Attempts
use painkiller.Store.Purchases
use painkiller.Store.Tests
use painkiller.Store.Scenarios
use painkiller.Store.Environments
use painkiller.Store.Sessions
use painkiller.Provider.{EnvironmentSpec, EnvironmentResult, EnvironmentProvisionSpec, ClusterSpec}
use painkiller.Scenarios.Schema.{Topology}
use painkiller.Scenarios.Topology.{decode_topology}
use painkiller.Jobs.{enqueue}
use painkiller.Attempts.Service.{transition_attempt, restore_attempt_count, parse_payload}
use painkiller.Orchestrator.Spec.{environment_spec, metadata_of, cluster_specs, provision_spec}

abbrev pub key_or_error : Option (Text × Text) → Action (Text × Text)
key_or_error none = raise key_error
key_or_error (some k) = pure k

abbrev pub topology_or_error : Option Topology → Action Topology
topology_or_error none = raise json_error
topology_or_error (some t) = pure t

abbrev pub result_or_error : Option EnvironmentResult → Action EnvironmentResult
result_or_error none = raise provider_error
result_or_error (some r) = pure r

abbrev pub specs_or_panic : Option (List ClusterSpec) → Action (List ClusterSpec)
specs_or_panic none = raise panic
specs_or_panic (some cs) = pure cs

abbrev pub new_environment : Uuid → Uuid → Text → EnvironmentResult → Instant → Environment
new_environment id attempt_id private_key result created = record {
  id = id;
  attempt_id = attempt_id;
  status = ready;
  workstation_ip = some result.workstation.ip_address;
  provider_metadata = metadata_of result;
  ssh_private_key = private_key;
  created_at = created;
}

abbrev pub new_session : Uuid → Uuid → Uuid → Text → Instant → Session
new_session id attempt_id environment_id token created = record {
  id = id;
  attempt_id = attempt_id;
  environment_id = environment_id;
  terminal_token = token;
  first_opened_at = none;
  created_at = created;
}

-- A job for an attempt that waits for no provisioning is stale.
abbrev pub is_stale : AttemptStatus → Bool
is_stale s = not (status_eq s attempt_requested) && not (status_eq s environment_provisioning)

-- What a step of the job tells the rest: its value, or that the job is over with `return nil`.
abbrev pub or_fail : {A : Type 0} → Action ⊤ → Result A × World → (A → Action ⊤) → Result ⊤ × World
or_fail failure (ok a, w) rest = rest a w
or_fail failure (err e, w) rest = (ok tt, (failure w).1)

module _ (o : Outside) where
  unfoldable pub enqueue_cleanup : Uuid → Action ⊤
  enqueue_cleanup attempt_id = enqueue o cleanup_environment (attempt_payload attempt_id) none

  unfoldable pub handle_provision_failure : Uuid → Action ⊤
  unfolding enqueue_cleanup
  handle_provision_failure attempt_id = do
    transition_attempt o attempt_id provision_failed
    ignore (enqueue_cleanup attempt_id)
    ignore (restore_attempt_count o attempt_id)

  -- `if err := call(); err != nil { o.handleProvisionFailure(…); return nil }`, then the rest.
  abbrev or_give_up : {A : Type 0} → Uuid → Action A → (A → Action ⊤) → Action ⊤
  or_give_up attempt_id call rest w = or_fail (handle_provision_failure attempt_id) (call w) rest

  abbrev create_environment : EnvironmentSpec → Action EnvironmentResult
  create_environment spec w = result_or_error (o.create_environment w.calls spec) (count_call w)

  abbrev provision : EnvironmentProvisionSpec → Action ⊤
  provision spec w = (if o.provision w.calls spec then ok tt else err provider_error, count_call w)

  -- From `Provision` to the end, for an environment that is recorded.
  unfoldable pub finish_provisioning : Uuid → Uuid → EnvironmentProvisionSpec → Action ⊤
  finish_provisioning attempt_id environment_id spec = or_give_up attempt_id (provision spec) λ _.
      do
        token ← new_uuid o
        id ← new_uuid o
        created ← now o
        let session = new_session id attempt_id environment_id (o.uuid_string token) created
        or_give_up attempt_id (Sessions.create o session)
            λ _. or_wrap (transition_attempt o attempt_id environment_ready) failed_to_transition

  -- From `CreateEnvironment` to the end.
  unfoldable pub build_environment :
      Option Text → Uuid → Text × Text → ScenarioVersion → Topology → EnvironmentSpec → Action ⊤
  build_environment proxy attempt_id keys version topology spec =
      or_give_up attempt_id (create_environment spec) λ result. do
        id ← new_uuid o
        created ← now o
        let env = new_environment id attempt_id keys.1 result created
        or_give_up attempt_id (Environments.create o env) λ _. do
          clusters ← specs_or_panic (cluster_specs topology.clusters result.clusters)
          finish_provisioning attempt_id env.id
              (provision_spec proxy keys.1 version.external_id result clusters)

  -- From the key pair to the end, for an attempt in `environment_provisioning`.
  unfoldable pub provision_attempt : Option Text → Uuid → Attempt → Action ⊤
  provision_attempt proxy attempt_id attempt = do
    keys ← λ w. key_or_error (o.generate_key w.calls) (count_call w)
    purchase ← or_wrap (Purchases.get_by_id o attempt.purchased_test_id) purchase_not_found
    test ← or_wrap (Tests.get_by_id o purchase.test_id) test_not_found
    version ← or_wrap (Scenarios.get_version o test.scenario_version_id) scenario_version_not_found
    topology ←
        or_wrap (topology_or_error (decode_topology version.topology_json)) failed_to_unmarshal
    environment_id ← new_uuid o
    build_environment proxy attempt_id keys version topology
        (environment_spec (o.uuid_string attempt_id) (o.uuid_string environment_id) keys.0 topology)

  abbrev begin_provisioning : Uuid → AttemptStatus → Action ⊤
  begin_provisioning attempt_id s =
      if status_eq s attempt_requested
      then or_wrap (transition_attempt o attempt_id environment_provisioning) failed_to_transition
      else pure tt

  abbrev provision_found : Option Text → Uuid → Attempt → Action ⊤
  provision_found proxy attempt_id attempt =
      if is_stale attempt.status
      then pure tt
      else (begin_provisioning attempt_id attempt.status
          >> provision_attempt proxy attempt_id attempt)

  -- `proxy` is `o.proxyConfig`, nil or an address.
  unfoldable pub handle_provision_environment : Option Text → Payload → Action ⊤
  handle_provision_environment proxy payload = do
    attempt_id ← parse_payload payload
    attempt ← or_wrap (Attempts.get_by_id o attempt_id) attempt_not_found
    provision_found proxy attempt_id attempt
