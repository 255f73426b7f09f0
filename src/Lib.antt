-- ===== src/Lib.antt =====
-- slotbus: requests and responses between a hub and its workers through shared memory.
--
-- A hub lays out a control region in a named mapping: a header, a table of slots, and a heap, of
-- which each slot owns an arena with a half for its request and one for its response. To send a
-- request it claims a free slot, writes the request into it, and makes it ready; the worker reads it,
-- writes the response, and makes the slot done. A body that does not fit its half goes to an overflow
-- region, a mapping of its own, whose name the reader derives from the slot and a marker in it.
--
-- Which file models what (paths from the repository's root):
--   Types            slotbus/src/types.rs: constants, `compute_layout`, `arena_size`, `slot_arenas`, `align8`,
--                    the codes of methods, and overflow markers; Types.Layout has the repr(C)
--                    offsets of `ShmHeader` and `SlotMeta` with the asserted sizes.
--   Error            slotbus/src/error.rs: `SlotBusError`, with a `Message` for each text that the code formats;
--                    `Outcome` is a `Result` that can also be a panic.
--   Config           slotbus/src/config.rs: `SlotBusConfig` and the OS-level names; Config.OsName is
--                    `sanitize_os_name`, Config.Builder the builder.
--   Memory           a mapping as a function from addresses to bytes, with loads and stores.
--   Utf8             `String::from_utf8_lossy`, byte by byte, as `read_request` uses it.
--   Os               what the code takes from the operating system and the crate `shared_memory`: a
--                    record of operations on an opaque state (`Os`), and the laws that proofs use
--                    (`IsOs`): a mapping is created with at least the size that was asked for, under a
--                    name that opens it, at an address where nothing is mapped yet; a creation and the
--                    exclusive opening of a file unmap nothing. `World` is that state with the bytes
--                    of all mappings; `M` is a step on the world with an `Outcome`.
--   Postcard         the crate `postcard`, a parameter with its two functions.
--   Region           slotbus/src/region.rs: `ShmRegion`, creation, opening, and the reclaim of orphaned files.
--   Region.Control   `init_control` and `validate_control`.
--   Region.Heap      checked access to the heap, `slot_arenas`, `arena_body_offset`.
--   Region.Slots     status words, `claim_free_slot`, `find_free_slot`, `has_inflight_slots`.
--   Region.Allocation
--                    the loop of `alloc_heap`.
--   Region.Isolation what an operation on a slot leaves to the others.
--   Region.Overflow  `create_overflow_fresh`, `create_overflow`, `read_overflow`.
--   Region.Payload   what requests and responses have in common: metadata and body into a half of the
--                    arena or an overflow region, and back.
--   Region.Requests, Region.Responses
--                    `write_request`, `read_request`, `write_response`, `read_response`; the modules
--                    Stored say what it is for a request or a response to be in a slot, and Region.Calm
--                    what may happen meanwhile.
--   Events           slotbus/src/events.rs: `NamedEvent` over the calls of the operating system (`Signals`).
--   Transport        slotbus/src/transport.rs: `Request`, `Response`, and what both sides take from outside
--                    (`Runtime`: events, `postcard`, the channels of `tokio::sync::oneshot`), with its
--                    laws in Transport.Laws.
--   Transport.Hub    `SlotBus`: `create`, `dispatch`, the watcher (`watch`), `slot_diagnostics`, `stop`.
--   Transport.Worker `SlotWorker`: `open` (here `open_worker`), `send_response`, the receive loop
--                    (`receive`), `stop`.
--   Transport.Protocol
--                    from which status to which a slot may go (Free, Writing, Ready, Claimed, Done).
--   Transport.Threads
--                    all threads of both sides at once: their phases, and a step relation on these and
--                    the region. A step is one access to a status word, or a change to the bytes of the
--                    slot that the thread holds. Threads.Acts and Threads.Cases have what any step can do,
--                    Threads.Owned the invariant, Threads.Waiting a request that waits, Threads.Turns what a
--                    step does to the status words.
--   Transport.Sweep  a whole round of the watcher; Sweep.Parts has its parts.
--   Transport.Total  operations on what fits a slot; Transport.Delivered has whole exchanges, and
--                    Transport.Overtaken one in which the answer is faster than `dispatch`.
--   Transport.State  the invariant of each side: its control region is mapped, with the heap behind the
--                    table, and no overflow region that it keeps is the control region.
--   Examples         slotbus/examples: Examples.Echo is echo_worker.rs, with its handler and its program,
--                    Examples.Embedded has both sides, the handler and the five requests of embedded.rs.
--
-- Base has what all files share, Tests the fixtures and the concrete runs.
--
-- Numbers are natural numbers. A sum or product of `usize` that the code computes unchecked wraps at
-- 2 ^ 64 in the model, as in a release build, and a cast to a shorter word is a remainder; where a
-- theorem needs no wrap-around it says how large its numbers are. The overflow generations 0 to 254
-- are tried by structural recursion on the number that is left, which is the source's own bound; the
-- polling of macOS in `wait_timeout` gets `ms + 1` rounds, enough as each round sleeps for a
-- millisecond. The loops of the watcher and of the receiver run until they are told to stop: their
-- models take the number of rounds and say whether they have come to their `break`. `alloc_heap` takes a list of the changes that
-- other threads make, one for each round that they disturb, and ends with the first round that has none.
-- The address of a slot (`slot_address`) is a sum without wrap-around, since the addresses in a table are
-- far below 2 ^ 64, and the debug assertion beside it in the source is left out, as in a release build.
--
-- Threads are numbered, and number 0 is the watcher, which the documentation of
-- `start_response_watcher` allows once. The definitions of hub and worker say what one thread does with
-- nothing between its steps. The modules of Transport.Threads have instead what the code of all threads
-- may do, step by step: that a thread changes the bytes of a slot only while it holds it, and stores a
-- status only to give up the slot it holds, is read from the source and is in the definition of a step;
-- what makes a thread the holder is the compare-and-exchange of the code. Status words are sequentially consistent there, as the acquire and release accesses of the
-- source are for one word. A worker's handler passes its slot to `send_response` once.
--
-- Not modelled: how threads are spawned, and the moment at which the code that follows a publication in
-- `dispatch` runs, but for Transport.Overtaken. A mutex is taken to be free and not poisoned, log output
-- and `Debug` are left out, and so are the getters of a single field, and what the fields of `SlotBus` and
-- `SlotWorker` do when the last of their owners goes. Windows, Linux and macOS are a value of the type
-- `Target` where the source has `cfg`. slotbus/src/lib.rs has declarations only. Of examples/embedded.rs,
-- the loop around the requests, with its measurement and printing, is left out.
pub mod Base
pub mod Types
pub mod Memory
pub mod Error
pub mod Utf8
pub mod Config
pub mod Os
pub mod Postcard
pub mod Region
pub mod Events
pub mod Transport
pub mod Examples
pub mod Tests
