-- ===== src/Tests/Opening.antt =====
-- A hub and a worker that are opened on the machine of the tests.
use slotbus.Base.{ℕ, ◌≡◌, ◌<◌, refl, arith, Text}
use slotbus.Error.{Outcome, ok}
use slotbus.Types.{slot_free}
use slotbus.Config.{region_name, request_event_name, response_event_name}
use slotbus.Events.{c_name, open_named}
use slotbus.Events as Events
use slotbus.Memory.{read_u32, write_u32}
use slotbus.Types.{compute_layout}
use slotbus.Region.Control.{init_control, validate_control}
use slotbus.Config.OsName.{linux, sanitize_os_name}
use slotbus.Os.{World}
use slotbus.Region.Slots.{load_status}
use slotbus.Region.{
  create_or_open, create_exclusive, try_create_exclusive, create_after_reclaim, open_region,
}
use slotbus.Transport.Handshake.{Ready, create-Ready}
use slotbus.Transport.Hub.{SlotBus, create}
use slotbus.Transport.Worker.{SlotWorker, open_worker}
use slotbus.Transport.Joined.{Joined, open_worker-create}
use slotbus.Tests.Machine.{machine, machine-IsOs}
use slotbus.Tests.Fixture.{config, start}
use slotbus.Tests.Runtime.{runtime, runtime-IsRuntime}

abbrev made : Outcome (SlotBus runtime) × World machine
made = create runtime config start

made_ok : (b : SlotBus runtime) × (made ≡ (ok b, made.1))
unfolding create create_or_open region_name sanitize_os_name create_exclusive try_create_exclusive
    create_after_reclaim open_region init_control compute_layout request_event_name Events.create
    c_name response_event_name
made_ok = (_, refl)

abbrev joined : Outcome (SlotWorker runtime) × World machine
joined = open_worker runtime config made.1

joined_ok : (s : SlotWorker runtime) × (joined ≡ (ok s, joined.1))
unfolding create create_or_open region_name sanitize_os_name create_exclusive try_create_exclusive
    create_after_reclaim open_region init_control compute_layout request_event_name Events.create
    c_name response_event_name open_worker validate_control read_u32 write_u32 open_named
joined_ok = (_, refl)

open_worker-create_example :
    Joined machine-IsOs runtime runtime-IsRuntime made_ok.0 joined_ok.0 joined.1
    × ((i : ℕ) → i < 2 → load_status made_ok.0.region i made.1 ≡ slot_free)
open_worker-create_example =
    open_worker-create machine-IsOs runtime runtime-IsRuntime config start made.1 joined.1 made_ok.0
      joined_ok.0 (omega arith, omega arith) made_ok.1 joined_ok.1

create-Ready_example :
    (name : Text) × (region_name linux config ≡ ok name)
    × Ready machine-IsOs runtime runtime-IsRuntime config name made_ok.0 made.1
create-Ready_example =
    create-Ready machine-IsOs runtime runtime-IsRuntime config start made.1 made_ok.0
      (omega arith, omega arith) made_ok.1
