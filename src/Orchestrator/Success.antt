-- ===== src/Orchestrator/Success.antt =====
-- A provisioning job of internal/orchestrator/provision_job.go on which every call succeeds.
use painkiller.Prelude.{
  ℕ, ◌+◌, ◌≡◌, refl, ap, true, false, Option, some, List, [], ◌∷◌, arith, Text, ◌⊎◌, inl, inr,
  Bool-cases,
}
use painkiller.Outside.{Outside}
use painkiller.Models.{
  AttemptStatus, status_eq, status_eq_sound, Uuid, Attempt, PurchasedTest, Test, ScenarioVersion,
  attempt_requested, environment_provisioning, environment_ready,
}
use painkiller.Store.{World, ok, count_call, attempt_payload}
use painkiller.Store.Attempts
use painkiller.Store.Purchases
use painkiller.Store.Tests
use painkiller.Store.Scenarios
use painkiller.Store.Table.{lookup, modify, lookup-modify}
use painkiller.Provider.{EnvironmentResult, ClusterSpec}
use painkiller.Scenarios.Schema.{Topology}
use painkiller.Scenarios.Topology.{decode_topology}
use painkiller.Attempts.StateMachine.{valid_transition}
use painkiller.Attempts.Service.{transition_attempt}
use painkiller.Orchestrator.Spec.{environment_spec, cluster_specs}
use painkiller.Orchestrator.Provision.{is_stale, provision_attempt, handle_provision_environment}
use painkiller.Orchestrator.Finishing.{Works, NewRows, Provisioned, build_ok}

begin_ok :
    (o : Outside) (id : Uuid) (a : Attempt) (w : World)
    → ((n : ℕ) → o.fails n ≡ false)
    → lookup Attempts.key id w.attempts ≡ some a
    → a.status ≡ attempt_requested
    → transition_attempt o id environment_provisioning w ≡ (
      ok tt,
      record w {
        attempts = modify Attempts.key id (Attempts.set_status environment_provisioning) w.attempts;
        calls = w.calls + 1 + 1;
      },
    )
unfolding transition_attempt valid_transition Attempts.get_by_id Attempts.update_status
begin_ok o id a w up found here = ground (arith, up w.calls, up (w.calls + 1))

-- What the attempt was bought as, and the machines that its scenario asks for.
pub record Asked (w : World) (a : Attempt) (result : EnvironmentResult) : Type 0 where
  pub purchase : PurchasedTest
  pub test : Test
  pub version : ScenarioVersion
  pub topology : Topology
  pub clusters : List ClusterSpec
  pub has_purchase : lookup Purchases.key a.purchased_test_id w.purchased_tests ≡ some purchase
  pub has_test : lookup Tests.key purchase.test_id w.tests ≡ some test
  pub has_version : lookup Scenarios.key test.scenario_version_id w.scenario_versions ≡ some version
  pub has_topology : decode_topology version.topology_json ≡ some topology
  pub has_clusters : cluster_specs topology.clusters result.clusters ≡ some clusters

-- Neither depends on the attempts and the counter.
still_new :
    (o : Outside) (w : World) (t : List Attempt) (n : ℕ)
    → NewRows o w
    → NewRows o (record w { attempts = t; calls = n })
still_new o w t n new = record {
  new_environment_id = new.new_environment_id;
  new_session_id = new.new_session_id;
  new_token = new.new_token;
}

still-Asked :
    (w : World) (a : Attempt) (result : EnvironmentResult) (t : List Attempt) (n : ℕ)
    → Asked w a result
    → Asked (record w { attempts = t; calls = n }) a result
still-Asked w a result t n asked = record {
  purchase = asked.purchase;
  test = asked.test;
  version = asked.version;
  topology = asked.topology;
  clusters = asked.clusters;
  has_purchase = asked.has_purchase;
  has_test = asked.has_test;
  has_version = asked.has_version;
  has_topology = asked.has_topology;
  has_clusters = asked.has_clusters;
}

-- The two statuses for which a job is not stale.
waiting :
    (s : AttemptStatus)
    → is_stale s ≡ false
    → (s ≡ attempt_requested) ⊎ (s ≡ environment_provisioning)
waiting s fresh = elim (Bool-cases (status_eq s attempt_requested)) [
  | inl asked ↦ inl (status_eq_sound s attempt_requested asked)
  | inr other ↦ inr (status_eq_sound s environment_provisioning (ground arith))
]

requested_lem :
    (s : AttemptStatus)
    → s ≡ attempt_requested
    → (status_eq s attempt_requested ≡ true) × (is_stale s ≡ false)
unfolding status_eq
requested_lem s h = (ap (λ x. status_eq x attempt_requested) h, ap is_stale h)

provisioning_lem :
    (s : AttemptStatus)
    → s ≡ environment_provisioning
    → (status_eq s attempt_requested ≡ false) × (is_stale s ≡ false)
unfolding status_eq
provisioning_lem s h = (ap (λ x. status_eq x attempt_requested) h, ap is_stale h)

module _ (o : Outside) (keys : Text × Text) (result : EnvironmentResult) where
  provision_attempt_ok :
      (id : Uuid) (proxy : Option Text) (a b : Attempt) (w : World)
      → Works o keys result
      → NewRows o w
      → Asked w a result
      → lookup Attempts.key id w.attempts ≡ some b
      → b.status ≡ environment_provisioning
      → Provisioned o keys result id (provision_attempt o proxy id a w) w
  unfolding provision_attempt Purchases.get_by_id Tests.get_by_id Scenarios.get_version
  provision_attempt_ok id proxy a b w works new asked found here =
      let n = w.calls in
      let m = n + 1 + 1 + 1 + 1 in
      let spec =
        environment_spec (o.uuid_string id) (o.uuid_string (o.new_uuid m)) keys.0 asked.topology in
      let (e, s, token, time, later, k, last) =
        build_ok o keys result id proxy b asked.version asked.topology spec asked.clusters
          (record w { calls = m + 1 }) works (still_new o w w.attempts (m + 1) new)
          asked.has_clusters found here in
      (
        e,
        s,
        token,
        time,
        later,
        k,
        ground (
          arith,
          last,
          works.keyed n,
          works.up (n + 1),
          works.up (n + 1 + 1),
          works.up (n + 1 + 1 + 1),
          asked.has_purchase,
          asked.has_test,
          asked.has_version,
          asked.has_topology,
        ),
      )

  -- The two updates of the status are as good as the last.
  ready_twice :
      (id : Uuid) (t : List Attempt)
      → modify Attempts.key id
          (Attempts.set_status environment_ready)
          (modify Attempts.key id (Attempts.set_status environment_provisioning) t)
        ≡ modify Attempts.key id (Attempts.set_status environment_ready) t
  unfolding modify
  ready_twice id [] = refl
  ready_twice id (a ∷ t) = ground (arith, ready_twice id t)

  requested_ok :
      (id : Uuid) (proxy : Option Text) (a : Attempt) (w : World)
      → Works o keys result
      → NewRows o w
      → Asked w a result
      → lookup Attempts.key id w.attempts ≡ some a
      → a.status ≡ attempt_requested
      → Provisioned o keys result id (handle_provision_environment o proxy (attempt_payload id) w) w
  unfolding handle_provision_environment Attempts.get_by_id
  requested_ok id proxy a w works new asked found here =
      let m = w.calls + 1 in
      let m' = m + 1 + 1 in
      let t = modify Attempts.key id (Attempts.set_status environment_provisioning) w.attempts in
      let w' = record w { attempts = t; calls = m' } in
      let there : lookup Attempts.key id w'.attempts
          ≡ some (Attempts.set_status environment_provisioning a) =
        ground (
          arith,
          lookup-modify Attempts.key id id (Attempts.set_status environment_provisioning) w.attempts
              (λ r. refl),
        ) in
      let first = begin_ok o id a (record w { calls = m }) works.up found here in
      let (e, s, token, time, later, k, last) =
        provision_attempt_ok id proxy a (Attempts.set_status environment_provisioning a) w' works
          (still_new o w t m' new) (still-Asked w a result t m' asked) there refl in
      (
        e,
        s,
        token,
        time,
        later,
        k,
        ground (
          arith,
          first,
          last,
          works.up w.calls,
          ready_twice id w.attempts,
          requested_lem a.status here,
        ),
      )

  -- Where the back ends answer, no call of the store or the queue fails, what is drawn is new, the
  -- attempt's purchase, test, scenario version and topology can be read, and the provider answers no
  -- more clusters than were asked for: a job for an attempt in `attempt_requested` or
  -- `environment_provisioning` succeeds, sets the attempt to `environment_ready`, adds one ready
  -- environment with the provider's answer and one session for the attempt in it, not opened yet, and
  -- changes nothing else; `started_at` of the attempt stays as it was.
  pub provision_ok :
      (id : Uuid) (proxy : Option Text) (a : Attempt) (w : World)
      → Works o keys result
      → NewRows o w
      → Asked w a result
      → lookup Attempts.key id w.attempts ≡ some a
      → is_stale a.status ≡ false
      → Provisioned o keys result id (handle_provision_environment o proxy (attempt_payload id) w) w
  unfolding handle_provision_environment Attempts.get_by_id
  provision_ok id proxy a w works new asked found fresh = elim (waiting a.status fresh) [
    | inl here ↦ requested_ok id proxy a w works new asked found here
    | inr here ↦
        let (e, s, token, time, later, k, last) =
          provision_attempt_ok id proxy a a (count_call w) works
            (still_new o w w.attempts (w.calls + 1) new)
            (still-Asked w a result w.attempts (w.calls + 1) asked) found here in
        (
          e,
          s,
          token,
          time,
          later,
          k,
          ground (arith, last, works.up w.calls, provisioning_lem a.status here),
        )
  ]
