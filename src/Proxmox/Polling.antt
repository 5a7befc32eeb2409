-- ===== src/Proxmox/Polling.antt =====
-- The turns of the loop of `waitForTask`.
use painkiller.Prelude.{
  ℕ, zero, suc, ◌+◌, ◌*◌, ◌≤◌, ◌≡◌, refl, ltb, Bool, true, false, Option, none, some, ⊤, Text,
  codes, if◌then◌else◌, arith, text_eq,
}
use painkiller.Proxmox.Wire.{
  task_status, Remote, Wire, Fault, Outcome, done, failed, Call, or_raise, wrapped, and_then, ◌>>=◌,
  ◌>>◌, do_request, wait,
}
use painkiller.Proxmox.Client.{
  poll, poll_request, poll_body, poll_status, decoded, decode_task, poll_interval, poll_timeout,
  poll_turns, wait_on,
}

-- Two continuations that agree from a time on, after a call that ends no earlier.
and_then-agree :
    {A B : Type 0} (n : ℕ) (o : Outcome A × Wire) (f g : A → Call B)
    → n ≤ o.1.now
    → ((a : A) (s : Wire) → n ≤ s.now → f a s ≡ g a s)
    → and_then o f ≡ and_then o g
and_then-agree n (done a, s) f g later h = h a s later
and_then-agree n (failed e, s) f g later h = refl

wrapped_later :
    {A : Type 0} (n : ℕ) (c : Text) (o : Outcome A × Wire) → n ≤ o.1.now → n ≤ (wrapped c o).1.now
wrapped_later n c (done a, s) h = h
wrapped_later n c (failed e, s) h = h

or_raise_later :
    {A : Type 0} (n : ℕ) (a : Option A) (e : Fault) (s : Wire)
    → n ≤ s.now
    → n ≤ (or_raise a e s).1.now
or_raise_later n none e s h = h
or_raise_later n (some a) e s h = h

if_agree :
    {A : Type 0} (b : Bool) (m n k : Call A) (s : Wire)
    → n s ≡ k s
    → (if b then m else n) s ≡ (if b then m else k) s
if_agree true m n k s h = refl
if_agree false m n k s h = h

if_same :
    {A : Type 0} (b : Bool) (x y z : A)
    → (b ≡ true → x ≡ y)
    → (if b then x else z) ≡ (if b then y else z)
if_same true x y z h = h refl
if_same false x y z h = refl

turn_agree :
    (r : Remote) (node upid : Text) (m n : Call ⊤) (s : Wire)
    → ((s' : Wire) → s.now ≤ s'.now → m s' ≡ n s')
    → (poll_request r node upid >>= poll_body r m) s
      ≡ (poll_request r node upid >>= poll_body r n) s
unfolding do_request
turn_agree r node upid m n s h =
    and_then-agree s.now (poll_request r node upid s) (poll_body r m) (poll_body r n)
      (wrapped_later s.now _ (do_request r (task_status node upid) s) (ground arith))
      (λ body s1 h1.
        and_then-agree s.now (or_raise (decoded decode_task body) _ s1) (poll_status r m)
          (poll_status r n) (or_raise_later s.now (decoded decode_task body) _ s1 h1)
          (λ task s2 h2. if_agree (text_eq task.status (codes "stopped")) _ m n s2 (h s2 h2)))

module _ (r : Remote) (node upid : Text) (deadline : ℕ) where
  -- The rest of a turn, at a time from which the fuel is enough.
  rest_agree :
      (fuel total : ℕ)
      → ((s : Wire)
          → deadline ≤ s.now + fuel * poll_interval
          → poll r node upid deadline fuel s ≡ poll r node upid deadline total s)
      → (n : ℕ) (s : Wire) → deadline ≤ n + suc fuel * poll_interval
      → n ≤ s.now
      → (wait r poll_interval >> poll r node upid deadline fuel) s
        ≡ (wait r poll_interval >> poll r node upid deadline total) s
  unfolding wait
  rest_agree fuel total ih n s h later =
      and_then-agree (n + poll_interval) (wait r poll_interval s) _ _ (ground arith)
        (λ u s' later'. ih s' (ground arith))

  poll_enough :
      (fuel total : ℕ) (s : Wire)
      → fuel ≤ total
      → deadline ≤ s.now + fuel * poll_interval
      → poll r node upid deadline fuel s ≡ poll r node upid deadline total s
  unfolding poll do_request
  poll_enough zero zero s le h = refl
  poll_enough zero (suc total) s le h = ground arith
  poll_enough (suc fuel) zero s le h = ground arith
  poll_enough (suc fuel) (suc total) s le h = if_same (ltb s.now deadline) _ _ _ (λ early.
      turn_agree r node upid (wait r poll_interval >> poll r node upid deadline fuel)
        (wait r poll_interval >> poll r node upid deadline total) s
        (λ s' later.
          rest_agree fuel total (λ s3. poll_enough fuel total s3 (ground arith)) s.now s' h later))

-- `waitForTask` waits two seconds at least between two polls, so 150 turns of its loop reach the
-- deadline of five minutes: with any greater number of turns the result, the requests and the time
-- are the same.
pub wait_for_task-turns :
    (r : Remote) (node upid : Text) (total : ℕ) (s : Wire)
    → poll_turns ≤ total
    → wait_on r upid (some node) s ≡ poll r node upid (s.now + poll_timeout) total s
wait_for_task-turns r node upid total s le =
    poll_enough r node upid (s.now + poll_timeout) poll_turns total s le (omega arith)
