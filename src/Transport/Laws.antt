-- ===== src/Transport/Laws.antt =====
-- What the proofs about the transport rely on of the operating system and the channels.
use slotbus.Base.{ℕ, ◌≡◌, ◌≢◌, refl, Text, List, some, true}
use slotbus.Os.{Os, World, opened}
use slotbus.Events.{NamedEvent, kernel_event, posix, signal}
use slotbus.Region.Calm.{Quiet}
use slotbus.Transport.{Runtime, Response}

-- Mappings are opened and dropped one handle at a time; events and channels touch no mapping and no
-- name of one.
pub record IsRuntime {o : Os} (rt : Runtime o) : Type 0 where
  pub open-Quiet : (name : Text) (s : o.State) → Quiet o s (o.open_map name s).1
  -- A handle that was just opened is given up without an effect on what was in use before.
  pub open-drop :
      (name : Text) (s s' : o.State) (h : o.Shmem) (p : ℕ)
      → o.open_map name s ≡ (opened h, s')
      → o.is_mapped s p ≡ true
      → o.is_mapped (o.drop_map h s') p ≡ true
  pub drop-keeps :
      (h : o.Shmem) (s : o.State) (p : ℕ)
      → o.as_ptr h ≢ p
      → o.is_mapped s p ≡ true
      → o.is_mapped (o.drop_map h s) p ≡ true
  -- What was opened is in use.
  pub open-maps :
      (name : Text) (s s' : o.State) (h : o.Shmem)
      → o.open_map name s ≡ (opened h, s')
      → o.is_mapped s' (o.as_ptr h) ≡ true
  pub create_event-Quiet : (name : List ℕ) (s : o.State) → Quiet o s (rt.sys.create_event name s).1
  pub open_event-Quiet : (name : List ℕ) (s : o.State) → Quiet o s (rt.sys.open_event name s).1
  pub sem_open-Quiet : (name : Text) (s : o.State) → Quiet o s (rt.sys.sem_open name s).1
  pub sem_unlink-Quiet : (name : Text) (s : o.State) → Quiet o s (rt.sys.sem_unlink name s)
  pub sem_create-Quiet : (name : Text) (s : o.State) → Quiet o s (rt.sys.sem_create name s).1
  pub set_event-Quiet : (handle : ℕ) (s : o.State) → Quiet o s (rt.sys.set_event handle s)
  pub sem_post-Quiet : (sem : rt.sys.Semaphore) (s : o.State) → Quiet o s (rt.sys.sem_post sem s)
  pub channel-Quiet : (s : o.State) → Quiet o s (rt.channel s).1
  pub drop_sender-Quiet : (tx : rt.Sender) (s : o.State) → Quiet o s (rt.drop_sender tx s)
  pub send-Quiet :
      (tx : rt.Sender) (response : Response) (s : o.State) → Quiet o s (rt.send tx response s)
  -- What is sent on a channel, its receiver gets.
  pub send-resolved :
      (s t : o.State) (response : Response)
      → rt.resolved (rt.channel s).0.1 (rt.send (rt.channel s).0.0 response t) ≡ some response

module _ {o : Os} (rt : Runtime o) (laws : IsRuntime rt) where
  pub signal-Quiet :
      (e : NamedEvent rt.sys) (w : World o) → Quiet o w.state (signal rt.sys e w).state
  unfolding signal
  signal-Quiet (kernel_event handle) w = laws.set_event-Quiet handle w.state
  signal-Quiet (posix sem name own) w = laws.sem_post-Quiet sem w.state

  pub signal-memory : (e : NamedEvent rt.sys) (w : World o) → (signal rt.sys e w).memory ≡ w.memory
  unfolding signal
  signal-memory (kernel_event handle) w = refl
  signal-memory (posix sem name own) w = refl
