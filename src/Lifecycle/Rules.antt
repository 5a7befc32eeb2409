-- ===== src/Lifecycle/Rules.antt =====
-- The rules for the ways in which single operations go on after an error, and all rules as one set.
use painkiller.Prelude.{List, Option, none, some, Text, ⊤}
use painkiller.Store.{World, Result, Action, Context, ok, err}
use painkiller.Provider.{EnvironmentResult, ClusterSpec}
use painkiller.Scenarios.Schema.{Topology}
use painkiller.Attempts.Service.{undone}
use painkiller.Orchestrator.{
  key_or_error, topology_or_error, result_or_error, specs_or_panic, or_fail, or_note, or_done,
  or_skip,
}
pub use painkiller.Lifecycle.Writes.{
  Asked, ◌↝*◌, none_yet, more, counted, ask_requested, ask_provisioning, ask_ready, ask_opened,
  ask_running, ask_submitted, ask_expired, ask_grading, ask_scored, ask_failed, ask_destroyed,
}
pub use painkiller.Lifecycle.Frame.{
  Ends, and_then-Ends, wrapped-Ends, dropped-Ends, plain-Ends, if-Ends, either-Ends,
  get_attempt-Ends, get_purchase-Ends, get_test-Ends, get_version-Ends, list_checks-Ends,
  get_environment-Ends, environment-Ends, token-Ends, get_session-Ends, list_attempts-Ends,
  enqueue-Ends, increment-Ends, decrement-Ends, create_attempt-Ends, update_score-Ends,
  create_environment-Ends, set_environment-Ends, create_session-Ends, opened-Ends, transition-Ends,
}

module _ (start : World) where
  pub undone-Ends :
      (undo : Action ⊤) (c : Context) (r : Result ⊤ × World)
      → Ends start r
      → ((w : World) → start ↝* w → Ends start (undo w))
      → Ends start (undone undo c r)
  undone-Ends undo c (ok a, w) h k = h
  undone-Ends undo c (err e, w) h k = record { holds = (k w h.holds).holds }

  pub or_fail-Ends :
      {A : Type 0} (failure : Action ⊤) (r : Result A × World) (rest : A → Action ⊤)
      → Ends start r
      → ((w : World) → start ↝* w → Ends start (failure w))
      → ((a : A) (w : World) → start ↝* w → Ends start (rest a w))
      → Ends start (or_fail failure r rest)
  or_fail-Ends failure (ok a, w) rest h f k = k a w h.holds
  or_fail-Ends failure (err e, w) rest h f k = record { holds = (f w h.holds).holds }

  pub or_note-Ends :
      (note : Action ⊤) (r : Result ⊤ × World)
      → Ends start r
      → ((w : World) → start ↝* w → Ends start (note w))
      → Ends start (or_note note r)
  or_note-Ends note (ok a, w) h k = h
  or_note-Ends note (err e, w) h k = record { holds = (k w h.holds).holds }

  pub or_done-Ends :
      {A : Type 0} (r : Result A × World) (rest : A → Action ⊤)
      → Ends start r
      → ((a : A) (w : World) → start ↝* w → Ends start (rest a w))
      → Ends start (or_done r rest)
  or_done-Ends (ok a, w) rest h k = k a w h.holds
  or_done-Ends (err e, w) rest h k = record { holds = h.holds }

  pub or_skip-Ends :
      {A : Type 0} (r : Result A × World) (rest : A → Action ⊤)
      → Ends start r
      → ((a : A) (w : World) → start ↝* w → Ends start (rest a w))
      → Ends start (or_skip r rest)
  or_skip-Ends (ok a, w) rest h k = k a w h.holds
  or_skip-Ends (err e, w) rest h k = record { holds = h.holds }

  -- A value that may be missing.
  pub key_or_error-Ends :
      (k : Option (Text × Text)) (w : World) → start ↝* w → Ends start (key_or_error k w)
  key_or_error-Ends none w h = record { holds = h }
  key_or_error-Ends (some k) w h = record { holds = h }

  pub topology_or_error-Ends :
      (t : Option Topology) (w : World) → start ↝* w → Ends start (topology_or_error t w)
  topology_or_error-Ends none w h = record { holds = h }
  topology_or_error-Ends (some t) w h = record { holds = h }

  pub result_or_error-Ends :
      (r : Option EnvironmentResult) (w : World) → start ↝* w → Ends start (result_or_error r w)
  result_or_error-Ends none w h = record { holds = h }
  result_or_error-Ends (some r) w h = record { holds = h }

  pub specs_or_panic-Ends :
      (cs : Option (List ClusterSpec)) (w : World) → start ↝* w → Ends start (specs_or_panic cs w)
  specs_or_panic-Ends none w h = record { holds = h }
  specs_or_panic-Ends (some cs) w h = record { holds = h }

pub ruleset combine = (
  key_or_error-Ends, topology_or_error-Ends, result_or_error-Ends, specs_or_panic-Ends,
  and_then-Ends, wrapped-Ends, plain-Ends, if-Ends, undone-Ends, or_fail-Ends, or_note-Ends,
  or_done-Ends, or_skip-Ends, dropped-Ends, counted, ask_requested, ask_provisioning, ask_ready,
  ask_opened, ask_running, ask_submitted, ask_expired, ask_grading, ask_scored, ask_failed,
  ask_destroyed, get_attempt-Ends, get_purchase-Ends, get_test-Ends, get_version-Ends,
  list_checks-Ends, get_environment-Ends, environment-Ends, token-Ends, get_session-Ends,
  list_attempts-Ends, enqueue-Ends, increment-Ends, decrement-Ends, create_attempt-Ends,
  update_score-Ends, create_environment-Ends, set_environment-Ends, create_session-Ends,
  opened-Ends, transition-Ends,
)
