-- ===== src/Config.antt =====
-- slotbus/src/config.rs: the configuration, its builder, and the names that a bus gives to its
-- objects in the operating system. A name is a text of bytes; a `usize` in a name is below 2 ^ 64.
pub mod Builder
pub mod OsName
pub mod Names
use slotbus.Base.{ℕ, ◌++◌, Bool, false, if◌then◌else◌, ◌==◌, Text, ascii, decimal, []}
use slotbus.Error.{Outcome}
use OsName.{Target, sanitize_os_name}

pub record SlotBusConfig : Type 0 where
  pub name : Text
  pub prefix : Text
  pub num_slots : ℕ
  pub region_size : ℕ
  pub wait_timeout_ms : ℕ
  pub instrumentation : Bool

-- `Default for SlotBusConfig`
abbrev pub default_config : SlotBusConfig
default_config = record {
  name = [];
  prefix = ascii "slotbus";
  num_slots = 32;
  region_size = 1_048_576;
  wait_timeout_ms = 5_000;
  instrumentation = false;
}

-- The raw name of an overflow region, before `sanitize_os_name`.
unfoldable pub overflow_name : Text → Text → Text → ℕ → ℕ → Text
overflow_name prefix name kind slot generation =
    if generation == 0
    then prefix ++ (ascii "-" ++ (name ++ (ascii "-" ++ (kind ++ (ascii "-" ++ decimal slot)))))
    else prefix
      ++ (ascii "-"
          ++ (name
              ++ (ascii "-"
                  ++ (kind
                      ++ (ascii "-" ++ (decimal slot ++ (ascii "-g" ++ decimal generation)))))))

module _ (target : Target) where
  unfoldable pub region_name : SlotBusConfig → Outcome Text
  region_name c = sanitize_os_name target (c.prefix ++ (ascii "-" ++ c.name))

  unfoldable pub request_event_name : SlotBusConfig → Outcome Text
  request_event_name c =
      sanitize_os_name target (c.prefix ++ (ascii "-" ++ (c.name ++ ascii "-req")))

  unfoldable pub response_event_name : SlotBusConfig → Outcome Text
  response_event_name c =
      sanitize_os_name target (c.prefix ++ (ascii "-" ++ (c.name ++ ascii "-rsp")))

  unfoldable pub request_overflow_name_gen : SlotBusConfig → ℕ → ℕ → Outcome Text
  request_overflow_name_gen c slot generation =
      sanitize_os_name target (overflow_name c.prefix c.name (ascii "req") slot generation)

  unfoldable pub response_overflow_name_gen : SlotBusConfig → ℕ → ℕ → Outcome Text
  response_overflow_name_gen c slot generation =
      sanitize_os_name target (overflow_name c.prefix c.name (ascii "rsp") slot generation)

  unfoldable pub request_overflow_name : SlotBusConfig → ℕ → Outcome Text
  unfolding request_overflow_name_gen
  request_overflow_name c slot = request_overflow_name_gen c slot 0

  unfoldable pub response_overflow_name : SlotBusConfig → ℕ → Outcome Text
  unfolding response_overflow_name_gen
  response_overflow_name c slot = response_overflow_name_gen c slot 0
