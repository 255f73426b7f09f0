-- ===== src/Events.antt =====
-- slotbus/src/events.rs: named events, on Windows an auto-reset event of the kernel, and elsewhere a
-- POSIX semaphore. The calls of the operating system are parameters: `Signals` has one operation for
-- each.
pub mod Deadline
use slotbus.Base.{
  ℕ, zero, suc, ◌+◌, ◌-◌, ◌*◌, ◌/◌, ◌%◌, ◌++◌, List, [], ◌∷◌, Option, none, some, Bool, true, false,
  if◌then◌else◌, leb, ◌==◌, Text, ascii, add_i64,
}
use slotbus.Error.{
  event, create_event_failed, open_event_failed, sem_create_failed, sem_open_failed,
  invalid_event_name, Outcome, ok, err,
}
use slotbus.Config.OsName.{Target, windows, linux, macos}
use slotbus.Os.{Os, World, M, ◌>>=◌, ◌>>◌, pure, fail, lift}

-- A handle of 0, a semaphore `none`: the call has failed. Times are nanoseconds, but for `sleep` and
-- the timeout of `wait_for_single_object`, which are milliseconds.
pub record Signals (o : Os) : Type 1 where
  pub Semaphore : Type 0
  -- Windows only. An event is created for automatic reset, and not signalled.
  pub encode_utf16 : Text → List ℕ
  pub create_event : List ℕ → o.State → ℕ × o.State
  pub open_event : List ℕ → o.State → ℕ × o.State
  pub set_event : ℕ → o.State → o.State
  pub wait_for_single_object : ℕ → ℕ → o.State → ℕ × o.State
  pub close_handle : ℕ → o.State → o.State
  -- Unix only. `sem_create` is `sem_open` with O_CREAT, mode 0o644 and the value 0.
  pub sem_unlink : Text → o.State → o.State
  pub sem_create : Text → o.State → Option Semaphore × o.State
  pub last_os_error : o.State → Text
  pub sem_open : Text → o.State → Option Semaphore × o.State
  pub sem_post : Semaphore → o.State → o.State
  pub sem_close : Semaphore → o.State → o.State
  -- Seconds and nanoseconds of CLOCK_REALTIME.
  pub clock_gettime : o.State → ℕ × ℕ
  pub sem_timedwait : Semaphore → ℕ → ℕ → o.State → Bool × o.State
  pub sem_trywait : Semaphore → o.State → Bool × o.State
  pub instant : o.State → ℕ
  pub sleep : ℕ → o.State → o.State

-- The place of the first zero byte of a text.
nul_position : ℕ → Text → Option ℕ
nul_position at [] = none
nul_position at (b ∷ bs) = let later = nul_position (at + 1) bs in if b == 0 then some at else later

-- `CString::new(format!("/{name}"))`, without the zero byte at its end.
unfoldable pub c_name : Text → Outcome Text
unfolding nul_position
c_name name = elim (nul_position 0 (ascii "/" ++ name)) [
  | none ↦ ok (ascii "/" ++ name)
  | some at ↦ err (event (invalid_event_name at))
]

module _ {o : Os} (sys : Signals o) where
  pub data NamedEvent : Type 0 where
    kernel_event : (handle : ℕ) → NamedEvent
    posix : (sem : sys.Semaphore) (name : Text) (created : Bool) → NamedEvent

  unfoldable pub create_kernel : Text → M (World o) NamedEvent
  create_kernel name w =
      let handle = sys.create_event (sys.encode_utf16 name ++ 0 ∷ []) w.state in
      if handle.0 == 0
      then (err (event (create_event_failed name)), record w { state = handle.1 })
      else (ok (kernel_event handle.0), record w { state = handle.1 })

  -- A semaphore that a crash left behind is unlinked first.
  unfoldable pub create_posix : Text → Text → M (World o) NamedEvent
  create_posix name cname w =
      let sem = sys.sem_create cname (sys.sem_unlink cname w.state) in
      elim (sem.0) [
        | none ↦ (
          err (event (sem_create_failed name (sys.last_os_error sem.1))),
          record w { state = sem.1 },
        )
        | some s ↦ (ok (posix s cname true), record w { state = sem.1 })
      ]

  unfoldable pub create : Target → Text → M (World o) NamedEvent
  unfolding create_kernel create_posix
  create windows name = create_kernel name
  create linux name = lift (c_name name) >>= create_posix name
  create macos name = lift (c_name name) >>= create_posix name

  unfoldable pub open_kernel : Text → M (World o) NamedEvent
  open_kernel name w =
      let handle = sys.open_event (sys.encode_utf16 name ++ 0 ∷ []) w.state in
      if handle.0 == 0
      then (err (event (open_event_failed name)), record w { state = handle.1 })
      else (ok (kernel_event handle.0), record w { state = handle.1 })

  unfoldable pub open_posix : Text → Text → M (World o) NamedEvent
  open_posix name cname w =
      let sem = sys.sem_open cname w.state in
      elim (sem.0) [
        | none ↦ (err (event (sem_open_failed name)), record w { state = sem.1 })
        | some s ↦ (ok (posix s cname false), record w { state = sem.1 })
      ]

  unfoldable pub open_named : Target → Text → M (World o) NamedEvent
  unfolding open_kernel open_posix
  open_named windows name = open_kernel name
  open_named linux name = lift (c_name name) >>= open_posix name
  open_named macos name = lift (c_name name) >>= open_posix name

  unfoldable pub signal : NamedEvent → World o → World o
  signal (kernel_event handle) w = record w { state = sys.set_event handle w.state }
  signal (posix sem name created) w = record w { state = sys.sem_post sem w.state }

  -- The absolute time of a wait of `ms` milliseconds, on Linux.
  unfoldable pub timed_deadline : ℕ × ℕ → ℕ → ℕ × ℕ
  timed_deadline now ms =
      let sec = add_i64 now.0 (ms / 1000) in
      let nsec = add_i64 now.1 (ms % 1000 * 1000000) in
      if leb 1000000000 nsec then (add_i64 sec 1, nsec - 1000000000) else (sec, nsec)

  -- The polling loop of macOS, `rounds` of it at most; `none`: it has not come to an end by then.
  unfoldable pub poll : ℕ → sys.Semaphore → ℕ → o.State → Option Bool × o.State
  poll zero sem deadline s = (none, s)
  poll (suc rounds) sem deadline s = elim (sys.sem_trywait sem s).0 [
    | true ↦ (some true, (sys.sem_trywait sem s).1)
    | false ↦ elim (leb deadline (sys.instant (sys.sem_trywait sem s).1)) [
      | true ↦ (some false, (sys.sem_trywait sem s).1)
      | false ↦ poll rounds sem deadline (sys.sleep 1 (sys.sem_trywait sem s).1)
    ]
  ]

  -- Whether the event was signalled. A kernel event never meets the Unix branches, nor a semaphore
  -- the Windows one: their types differ by target in the source.
  unfoldable pub wait_timeout : Target → NamedEvent → ℕ → World o → Option Bool × World o
  unfolding timed_deadline poll
  wait_timeout target (kernel_event handle) ms w =
      let result = sys.wait_for_single_object handle ms w.state in
      (some (result.0 == 0), record w { state = result.1 })
  wait_timeout macos (posix sem name created) ms w =
      let result = poll (ms + 1) sem (sys.instant w.state + ms * 1000000) w.state in
      (result.0, record w { state = result.1 })
  wait_timeout _ (posix sem name created) ms w =
      let until = timed_deadline (sys.clock_gettime w.state) ms in
      let result = sys.sem_timedwait sem until.0 until.1 w.state in
      (some result.0, record w { state = result.1 })

  -- `Drop`
  unfoldable pub drop_event : NamedEvent → World o → World o
  drop_event (kernel_event handle) w = record w { state = sys.close_handle handle w.state }
  drop_event (posix sem name created) w =
      let closed = sys.sem_close sem w.state in
      record w { state = if created then sys.sem_unlink name closed else closed }
