-- ===== src/Orchestrator/Finishing.antt =====
-- A provisioning job of internal/orchestrator/provision_job.go on which every call succeeds, from the
-- creation of the machines on.
use painkiller.Prelude.{
  ℕ, ◌+◌, ◌≡◌, true, false, Option, none, some, List, [], ◌∷◌, ◌++◌, arith, any, Text, text_eq, ⊤,
}
use painkiller.Outside.{Outside}
use painkiller.Models.{
  Instant, Uuid, Attempt, ScenarioVersion, environment_provisioning, environment_ready, ready,
}
use painkiller.Store.{World, Result, ok}
use painkiller.Store.Attempts
use painkiller.Store.Environments
use painkiller.Store.Sessions
use painkiller.Store.Constraints.{has-append}
use painkiller.Store.Table.{lookup, modify, has, has_of_lookup}
use painkiller.Provider.{EnvironmentProvisionSpec, EnvironmentResult, EnvironmentSpec, ClusterSpec}
use painkiller.Scenarios.Schema.{Topology}
use painkiller.Attempts.StateMachine.{valid_transition}
use painkiller.Attempts.Service.{transition_attempt}
use painkiller.Orchestrator.Spec.{cluster_specs, provision_spec, metadata_of}
use painkiller.Orchestrator.Provision.{
  new_environment, new_session, finish_provisioning, build_environment,
}

pub transition_ok :
    (o : Outside) (id : Uuid) (a : Attempt) (w : World)
    → ((n : ℕ) → o.fails n ≡ false)
    → lookup Attempts.key id w.attempts ≡ some a
    → a.status ≡ environment_provisioning
    → transition_attempt o id environment_ready w ≡ (
      ok tt,
      record w {
        attempts = modify Attempts.key id (Attempts.set_status environment_ready) w.attempts;
        calls = w.calls + 1 + 1;
      },
    )
unfolding transition_attempt valid_transition Attempts.get_by_id Attempts.update_status
transition_ok o id a w up found here = ground (arith, up w.calls, up (w.calls + 1))

-- The back ends answer, and no call of the store or the queue fails.
pub record Works (o : Outside) (keys : Text × Text) (result : EnvironmentResult) : Type 0 where
  pub up : (n : ℕ) → o.fails n ≡ false
  pub keyed : (n : ℕ) → o.generate_key n ≡ some keys
  pub built : (n : ℕ) (spec : EnvironmentSpec) → o.create_environment n spec ≡ some result
  pub provisioned : (n : ℕ) (spec : EnvironmentProvisionSpec) → o.provision n spec ≡ true

-- No environment and no session has an identifier that will be drawn, and no session a token that
-- will be.
pub record NewRows (o : Outside) (w : World) : Type 0 where
  pub new_environment_id : (n : ℕ) → has Environments.key (o.new_uuid n) w.environments ≡ false
  pub new_session_id : (n : ℕ) → has Sessions.key (o.new_uuid n) w.sessions ≡ false
  pub new_token :
      (n : ℕ)
      → any (λ r. text_eq r.terminal_token (o.uuid_string (o.new_uuid n))) w.sessions ≡ false

module _ (o : Outside) (keys : Text × Text) (result : EnvironmentResult) where
  -- Success, with the attempt ready, one environment more and one session more, their columns written
  -- out, and else the state that the job finds.
  abbrev pub Provisioned : Uuid → Result ⊤ × World → World → Type 0
  Provisioned id r w =
      (e : Uuid) × (s : Uuid) × (token : Uuid) × (time : Instant) × (later : Instant) × (n : ℕ) × (r
        ≡ (
          ok tt,
          record w {
            attempts =
                modify Attempts.key id (λ a. record a { status = environment_ready }) w.attempts;
            environments =
                w.environments
                ++ record {
                  id = e;
                  attempt_id = id;
                  status = ready;
                  workstation_ip = some result.workstation.ip_address;
                  provider_metadata = metadata_of result;
                  ssh_private_key = keys.1;
                  created_at = time;
                }
                  ∷ [];
            sessions =
                w.sessions
                ++ record {
                  id = s;
                  attempt_id = id;
                  environment_id = e;
                  terminal_token = o.uuid_string token;
                  first_opened_at = none;
                  created_at = later;
                }
                  ∷ [];
            calls = n;
          },
        ))

  finish_ok :
      (id env : Uuid) (spec : EnvironmentProvisionSpec) (a : Attempt) (w : World)
      → Works o keys result
      → ((n : ℕ) → has Sessions.key (o.new_uuid n) w.sessions ≡ false)
      → ((n : ℕ)
          → any (λ r. text_eq r.terminal_token (o.uuid_string (o.new_uuid n))) w.sessions ≡ false)
      → has Environments.key env w.environments ≡ true
      → lookup Attempts.key id w.attempts ≡ some a
      → a.status ≡ environment_provisioning
      → let n = w.calls in
        finish_provisioning o id env spec w ≡ (
          ok tt,
          record w {
            attempts = modify Attempts.key id (Attempts.set_status environment_ready) w.attempts;
            sessions =
                w.sessions
                ++ new_session
                    (o.new_uuid (n + 1 + 1))
                    id
                    env
                    (o.uuid_string (o.new_uuid (n + 1)))
                    (o.clock (n + 1 + 1 + 1))
                  ∷ [];
            calls = n + 1 + 1 + 1 + 1 + 1 + 1 + 1;
          },
        )
  unfolding finish_provisioning Sessions.create
  finish_ok id env spec a w works new_id new_token there found here =
      let n = w.calls in
      let m = n + 1 + 1 + 1 + 1 in
      let s =
        new_session (o.new_uuid (n + 1 + 1)) id env (o.uuid_string (o.new_uuid (n + 1)))
          (o.clock (n + 1 + 1 + 1)) in
      let last =
        transition_ok o id a (record w { sessions = w.sessions ++ s ∷ []; calls = m + 1 }) works.up
          found here in
      ground (
        arith,
        last,
        works.provisioned n spec,
        works.up m,
        new_id (n + 1 + 1),
        new_token (n + 1),
        there,
        has_of_lookup Attempts.key id a w.attempts found,
      )

  pub build_ok :
      (id : Uuid) (proxy : Option Text) (a : Attempt) (v : ScenarioVersion) (t : Topology)
      (spec : EnvironmentSpec) (clusters : List ClusterSpec) (w : World)
      → Works o keys result
      → NewRows o w
      → cluster_specs t.clusters result.clusters ≡ some clusters
      → lookup Attempts.key id w.attempts ≡ some a
      → a.status ≡ environment_provisioning
      → Provisioned id (build_environment o proxy id keys v t spec w) w
  unfolding build_environment Environments.create
  build_ok id proxy a v t spec clusters w works new fit found here =
      let n = w.calls in
      let e = o.new_uuid (n + 1) in
      let env = new_environment e id keys.1 result (o.clock (n + 1 + 1)) in
      let m = n + 1 + 1 + 1 in
      let k = m + 1 in
      let w' = record w { environments = w.environments ++ env ∷ []; calls = k } in
      let there : has Environments.key e w'.environments ≡ true =
        ground (arith, has-append Environments.key e w.environments env) in
      let last =
        finish_ok id e (provision_spec proxy keys.1 v.external_id result clusters) a w' works
          new.new_session_id new.new_token there found here in
      (
        e,
        o.new_uuid (k + 1 + 1),
        o.new_uuid (k + 1),
        o.clock (n + 1 + 1),
        o.clock (k + 1 + 1 + 1),
        k + 1 + 1 + 1 + 1 + 1 + 1 + 1,
        ground (
          arith,
          last,
          fit,
          works.built n spec,
          works.up m,
          new.new_environment_id (n + 1),
          has_of_lookup Attempts.key id a w.attempts found,
        ),
      )
