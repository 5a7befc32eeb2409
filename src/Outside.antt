-- ===== src/Outside.antt =====
-- What the program calls and does not implement: Postgres and River as calls that can fail, the
-- clock, package uuid, package ssh, and the back ends behind the Provider and Provisioner
-- interfaces. Each answer depends on the number of the call, so a value of this record is one
-- history of the outside world, and a theorem over all values covers every history.
use painkiller.Prelude.{ℕ, ℤ, Text, Bool, Option}
use painkiller.Json.{Json}
use painkiller.Models.{Uuid, Instant}
use painkiller.Provider.{EnvironmentSpec, EnvironmentResult, EnvironmentProvisionSpec}

-- How `session.Run(command)` ends: well, with an `*ssh.ExitError`, or with another error.
pub data RunOutcome : Type 0 where
  clean : RunOutcome
  exit_error : ℤ → RunOutcome
  broken : RunOutcome

pub record Outside : Type 0 where
  -- The call to the database or to the queue returns an error, and nothing is written.
  pub fails : ℕ → Bool
  -- `time.Now()`
  pub clock : ℕ → Instant
  -- `uuid.New()`
  pub new_uuid : ℕ → Uuid
  -- `id.String()`
  pub uuid_string : Uuid → Text
  -- Which row comes first when a query fits several and has no ORDER BY.
  pub pick : ℕ → ℕ
  -- `ed25519.GenerateKey` to `pem.EncodeToMemory`: the public key's line and the private key.
  pub generate_key : ℕ → Option (Text × Text)
  -- `Provider.CreateEnvironment` and `Provider.DestroyEnvironment` (true: no error)
  pub create_environment : ℕ → EnvironmentSpec → Option EnvironmentResult
  pub destroy_environment : ℕ → Json → Bool
  -- `Provisioner.Provision` (true: no error)
  pub provision : ℕ → EnvironmentProvisionSpec → Bool
  -- `ssh.ParsePrivateKey`, `ssh.Dial`, `client.NewSession` (true: no error) and `session.Run`
  pub ssh_parse : Text → Bool
  pub ssh_dial : ℕ → Text → Bool
  pub ssh_session : ℕ → Bool
  pub ssh_run : ℕ → Text → RunOutcome
  -- What the command wrote to its two outputs.
  pub ssh_output : ℕ → Text × Text
