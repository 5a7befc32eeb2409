-- ===== src/Orchestrator/Examples.antt =====
-- The theorems on internal/orchestrator at work on the example shop.
use painkiller.Prelude.{◌≡◌, refl, none, some, [], ◌∷◌, ◌++◌, codes}
use painkiller.Models.{
  status_eq, attempt_requested, environment_provisioning, provision_failed, cleanup_environment,
}
use painkiller.Store.{World, ok, attempt_payload}
use painkiller.Store.Attempts
use painkiller.Store.Purchases
use painkiller.Store.Table.{lookup, modify, has}
use painkiller.Outside.{Outside}
use painkiller.Provider.{EnvironmentResult}
use painkiller.Scenarios.Topology.{decode_topology}
use painkiller.Example.{shop, calm, attempt_at, purchase, free_test, version}
use painkiller.Orchestrator.Spec.{cluster_specs}
use painkiller.Orchestrator.Provision.{handle_provision_environment, handle_provision_failure}
use painkiller.Orchestrator.Failure.{handle_provision_failure_lem}
use painkiller.Orchestrator.Finishing.{Provisioned}
use painkiller.Orchestrator.Success.{provision_ok}

-- The shop with one attempt that is being provisioned.
abbrev building : World
building = record shop { attempts = attempt_at 20 environment_provisioning ∷ [] }

handle_provision_failure_lem_example :
    let (r, w') = handle_provision_failure calm 20 building in
    (r ≡ ok tt)
    × (w' ≡ record building {
      attempts = modify Attempts.key 20 (Attempts.set_status provision_failed) building.attempts;
      purchased_tests = modify Purchases.key 5 Purchases.give_one building.purchased_tests;
      jobs =
          building.jobs
          ++ record {
            kind = cleanup_environment;
            payload = attempt_payload 20;
            scheduled_at = none;
          }
            ∷ [];
      calls = w'.calls;
    })
unfolding lookup
handle_provision_failure_lem_example =
    handle_provision_failure_lem calm 20 (attempt_at 20 environment_provisioning) building
      (λ n. refl) refl refl

-- A provider that builds a workstation and no cluster, as the shop's scenario asks.
abbrev built : EnvironmentResult
built = record {
  workstation = record {
    provider_vm_id = codes "100";
    ip_address = codes "10.0.0.5";
    hostname = codes "workstation";
  };
  clusters = [];
}

abbrev working : Outside
working = record calm {
  generate_key = λ _. some (codes "public", codes "private");
  create_environment = λ _ _. some built;
}

-- The shop with one attempt that is requested, before its first session.
abbrev asking : World
asking = record shop {
  attempts = attempt_at 20 attempt_requested ∷ [];
  environments = [];
  sessions = [];
}

provision_ok_example :
    Provisioned working
      (codes "public", codes "private")
      built
      20
      (handle_provision_environment working none (attempt_payload 20) asking)
      asking
unfolding lookup has status_eq cluster_specs decode_topology
provision_ok_example =
    provision_ok working (codes "public", codes "private") built 20 none
      (attempt_at 20 attempt_requested) asking
      (record {
        up = λ n. refl;
        keyed = λ n. refl;
        built = λ n spec. refl;
        provisioned = λ n spec. refl;
      })
      (record { new_environment_id = λ n. refl; new_session_id = λ n. refl; new_token = λ n. refl })
      (record {
        purchase = purchase;
        test = free_test;
        version = version;
        topology = record { clusters = [] };
        clusters = [];
        has_purchase = refl;
        has_test = refl;
        has_version = refl;
        has_topology = refl;
        has_clusters = refl;
      })
      refl refl
