-- ===== src/Jobs.antt =====
-- internal/jobs/queue.go: River takes a job or returns an error.
pub mod Worker
use painkiller.Prelude.{
  ℕ, negsuc, leb_ℤ, Bool, ◌&&◌, Option, none, some, [], ◌∷◌, ◌++◌, ⊤, if◌then◌else◌,
}
use painkiller.Outside.{Outside}
use painkiller.Models.{Instant, JobKind}
use painkiller.Store.{World, Action, Payload, Job, exec}

-- `t.IsZero()`: the first instant of year 1, in nanoseconds from 1970.
abbrev is_zero : Instant → Bool
is_zero t = let zero_time = negsuc 62135596799999999999 in leb_ℤ t zero_time && leb_ℤ zero_time t

-- `opts != nil && !opts.RunAt.IsZero()`
abbrev scheduled : Option Instant → Option Instant
scheduled none = none
scheduled (some t) = if is_zero t then none else some t

module _ (o : Outside) where
  -- `opts` is nil or holds `RunAt`.
  unfoldable pub enqueue : JobKind → Payload → Option Instant → Action ⊤
  enqueue kind payload opts = exec o (λ w. some (record w {
    jobs = w.jobs ++ record { kind = kind; payload = payload; scheduled_at = scheduled opts } ∷ [];
  }))

  unfoldable pub enqueue_at : JobKind → Payload → Instant → Action ⊤
  unfolding enqueue
  enqueue_at kind payload run_at = enqueue kind payload (some run_at)
