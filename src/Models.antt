-- ===== src/Models.antt =====
-- internal/models: the rows of the database. A UUID is a number, since the program only compares
-- them, and 0 is `uuid.Nil`; an instant is a number of nanoseconds.
mod Status
unfoldable pub use Status.*
use painkiller.Prelude.{ℕ, ℤ, Text, Bool, Option}
use painkiller.Json.{Json}

abbrev pub Uuid : Type 0
Uuid = ℕ

abbrev pub Instant : Type 0
Instant = ℤ

pub record User : Type 0 where
  pub id : Uuid
  pub email : Text
  pub password_hash : Text
  pub is_admin : Bool
  pub created_at : Instant

pub record Product : Type 0 where
  pub id : Uuid
  pub stripe_price_id : Option Text
  pub title : Text
  pub description : Text
  pub is_free : Bool
  pub created_at : Instant

pub record Test : Type 0 where
  pub id : Uuid
  pub product_id : Uuid
  pub scenario_version_id : Uuid
  pub duration_minutes : ℤ
  pub access_window_hours : ℤ
  pub attempts_allowed : ℤ
  pub created_at : Instant

pub record PurchasedTest : Type 0 where
  pub id : Uuid
  pub user_id : Uuid
  pub test_id : Uuid
  pub stripe_session_id : Option Text
  pub expires_at : Instant
  pub attempts_remaining : ℤ
  pub created_at : Instant

pub record ScenarioVersion : Type 0 where
  pub id : Uuid
  pub external_id : Text
  pub title : Text
  pub git_commit : Text
  pub duration_minutes : ℤ
  pub access_window_hours : ℤ
  pub attempts_allowed : ℤ
  pub topology_json : Json
  pub created_at : Instant

pub record Task : Type 0 where
  pub id : Uuid
  pub scenario_version_id : Uuid
  pub external_id : Text
  pub cluster_id : Text
  pub kube_context : Text
  pub points : ℤ
  pub prompt : Text
  pub created_at : Instant

pub record Check : Type 0 where
  pub id : Uuid
  pub task_id : Uuid
  pub external_id : Text
  pub cluster_id : Text
  pub check_type : Text
  pub command : Text
  pub points : ℤ
  pub created_at : Instant

pub record Attempt : Type 0 where
  pub id : Uuid
  pub purchased_test_id : Uuid
  pub status : AttemptStatus
  pub score : Option ℤ
  pub max_score : Option ℤ
  pub started_at : Option Instant
  pub ended_at : Option Instant
  pub created_at : Instant

pub record Environment : Type 0 where
  pub id : Uuid
  pub attempt_id : Uuid
  pub status : EnvironmentStatus
  pub workstation_ip : Option Text
  pub provider_metadata : Json
  pub ssh_private_key : Text
  pub created_at : Instant

pub record Session : Type 0 where
  pub id : Uuid
  pub attempt_id : Uuid
  pub environment_id : Uuid
  pub terminal_token : Text
  pub first_opened_at : Option Instant
  pub created_at : Instant
