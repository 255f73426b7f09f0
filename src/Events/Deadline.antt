-- ===== src/Events/Deadline.antt =====
-- The waits of an event: their deadlines and their rounds.
use slotbus.Base.{
  ℕ, Text, zero, suc, ◌+◌, ◌*◌, ◌^◌, ◌≤◌, ◌<◌, ◌≡◌, arith, some, Bool, false, Bool-cases, leb, inl,
  inr, leb→le,
}
use slotbus.Config.OsName.{macos}
use slotbus.Os.{Os, World}
use slotbus.Events.{Signals, posix, timed_deadline, poll, wait_timeout}

-- The clock that `Instant` reads goes on during a sleep, and never back.
pub record HasClock {o : Os} (sys : Signals o) : Type 0 where
  pub sleep-instant :
      (ms : ℕ) (s : o.State) → sys.instant s + ms * 1000000 ≤ sys.instant (sys.sleep ms s)
  pub trywait-instant :
      (sem : sys.Semaphore) (s : o.State) → sys.instant s ≤ sys.instant (sys.sem_trywait sem s).1

module _ {o : Os} (sys : Signals o) where
  -- For a clock with less than 10 ^ 9 nanoseconds, whose seconds are more than 2 ^ 32 below the end of
  -- `i64`, and a timeout of 32 bits: the deadline of a wait on Linux is the clock's time plus the
  -- timeout, with less than 10 ^ 9 nanoseconds.
  pub timed_deadline_lem :
      (sec nsec ms : ℕ)
      → sec + 2 ^ 32 < 2 ^ 63
      → nsec < 1000000000
      → ms < 2 ^ 32
      → let until = timed_deadline sys (sec, nsec) ms in
        (until.0 * 1000000000 + until.1 ≡ sec * 1000000000 + nsec + ms * 1000000)
        × (until.1 < 1000000000)
  unfolding timed_deadline
  timed_deadline_lem sec nsec ms hs hn hm = ground arith

  -- A poll that gives up does so at the deadline or later.
  poll_gives_up :
      (rounds : ℕ) (sem : sys.Semaphore) (deadline : ℕ) (s s' : o.State)
      → poll sys rounds sem deadline s ≡ (some false, s')
      → deadline ≤ sys.instant s'
  unfolding poll
  poll_gives_up zero sem deadline s s' h = absurd (ground arith)
  poll_gives_up (suc k) sem deadline s s' h = elim (Bool-cases (sys.sem_trywait sem s).0) [
    | inl signalled ↦ absurd (ground arith)
    | inr not_yet ↦
        let tried = (sys.sem_trywait sem s).1 in
        elim (Bool-cases (leb deadline (sys.instant tried))) [
          | inl late ↦ ground (arith, leb→le deadline (sys.instant tried) late)
          | inr early ↦
              poll_gives_up k sem deadline (sys.sleep 1 tried) s' (rw (not_yet, early, poll) at h)
        ]
  ]

  -- On macOS, a wait of `ms` milliseconds that gives up has lasted that long.
  pub wait_timeout_not_early :
      (sem : sys.Semaphore) (name : Text) (created : Bool) (ms : ℕ) (w w' : World o)
      → wait_timeout sys macos (posix sem name created) ms w ≡ (some false, w')
      → sys.instant w.state + ms * 1000000 ≤ sys.instant w'.state
  unfolding wait_timeout
  wait_timeout_not_early sem name created ms w w' h =
      let until = sys.instant w.state + ms * 1000000 in
      let result = poll sys (ms + 1) sem until w.state in
      let same : result ≡ (some false, w'.state) = ground arith in
      poll_gives_up (ms + 1) sem until w.state w'.state same
