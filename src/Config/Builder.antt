-- ===== src/Config/Builder.antt =====
-- `SlotBusConfigBuilder` of slotbus/src/config.rs: each setter replaces one field, `num_slots` is
-- clamped, and `build` wants a name.
use slotbus.Base.{
  ℕ, ◌≤◌, ◌≡◌, ◌≢◌, ◌⊎◌, inl, inr, refl, arith, Bool, true, false, if◌then◌else◌, ltb, Text, List,
  [], ◌∷◌,
}
use slotbus.Error.{Outcome, ok, panicked}
use slotbus.Config.{SlotBusConfig, default_config}

pub record SlotBusConfigBuilder : Type 0 where
  pub config : SlotBusConfig

unfoldable pub builder : SlotBusConfigBuilder
builder = record { config = default_config }

unfoldable pub name : SlotBusConfigBuilder → Text → SlotBusConfigBuilder
name b n = record { config = record config { name = n } }
  where
    open b use {config}

pub prefix : SlotBusConfigBuilder → Text → SlotBusConfigBuilder
prefix b p = record { config = record config { prefix = p } }
  where
    open b use {config}

-- `n.clamp(low, high)`
abbrev clamp : ℕ → ℕ → ℕ → ℕ
clamp low high n = if ltb n low then low else if ltb high n then high else n

unfoldable pub num_slots : SlotBusConfigBuilder → ℕ → SlotBusConfigBuilder
num_slots b n = record { config = record config { num_slots = clamp 1 256 n } }
  where
    open b use {config}

pub region_size : SlotBusConfigBuilder → ℕ → SlotBusConfigBuilder
region_size b n = record { config = record config { region_size = n } }
  where
    open b use {config}

pub wait_timeout_ms : SlotBusConfigBuilder → ℕ → SlotBusConfigBuilder
wait_timeout_ms b n = record { config = record config { wait_timeout_ms = n } }
  where
    open b use {config}

pub instrumentation : SlotBusConfigBuilder → Bool → SlotBusConfigBuilder
instrumentation b on = record { config = record config { instrumentation = on } }
  where
    open b use {config}

abbrev is_empty : Text → Bool
is_empty [] = true
is_empty (x ∷ xs) = false

unfoldable pub build : SlotBusConfigBuilder → Outcome SlotBusConfig
build b = if is_empty b.config.name then panicked else ok b.config

-- One call of a setter.
pub data Call : Type 0 where
  sets_name sets_prefix : Text → Call
  sets_num_slots sets_region_size sets_wait_timeout_ms : ℕ → Call
  sets_instrumentation : Bool → Call

pub call : SlotBusConfigBuilder → Call → SlotBusConfigBuilder
unfolding name prefix num_slots region_size wait_timeout_ms instrumentation
call b (sets_name t) = name b t
call b (sets_prefix t) = prefix b t
call b (sets_num_slots n) = num_slots b n
call b (sets_region_size n) = region_size b n
call b (sets_wait_timeout_ms n) = wait_timeout_ms b n
call b (sets_instrumentation on) = instrumentation b on

pub calls : SlotBusConfigBuilder → List Call → SlotBusConfigBuilder
unfolding call
calls b [] = b
calls b (c ∷ cs) = calls (call b c) cs

abbrev InRange : SlotBusConfig → Type 0
InRange c = (1 ≤ c.num_slots) × (c.num_slots ≤ 256)

call-InRange : (b : SlotBusConfigBuilder) (c : Call) → InRange b.config → InRange (call b c).config
unfolding call
call-InRange b (sets_num_slots n) h = ground arith
call-InRange b _ h = h

calls-InRange :
    (b : SlotBusConfigBuilder) (cs : List Call) → InRange b.config → InRange (calls b cs).config
unfolding calls
calls-InRange b [] h = h
calls-InRange b (c ∷ cs) h = calls-InRange (call b c) cs (call-InRange b c h)

name_cases : (n : Text) → (n ≡ []) ⊎ ((is_empty n ≡ false) × (n ≢ []))
name_cases [] = inl refl
name_cases (x ∷ xs) = inr (refl, λ e. cc)

-- Whatever setters are called on a new builder, in whatever order: `build` either gives a
-- configuration with a name and between 1 and 256 slots, or panics, and it panics only for the
-- empty name.
pub build-calls :
    (cs : List Call)
    → ((c : SlotBusConfig) × (build (calls builder cs) ≡ ok c)
        × (c.name ≢ [])
        × (1 ≤ c.num_slots)
        × (c.num_slots ≤ 256))
      ⊎ ((build (calls builder cs) ≡ panicked) × ((calls builder cs).config.name ≡ []))
unfolding build builder
build-calls cs = by_name (calls builder cs) (calls-InRange builder cs (omega arith))
  where
    by_name :
        (b : SlotBusConfigBuilder)
        → InRange b.config
        → ((c : SlotBusConfig) × (build b ≡ ok c)
            × (c.name ≢ [])
            × (1 ≤ c.num_slots)
            × (c.num_slots ≤ 256))
          ⊎ ((build b ≡ panicked) × (b.config.name ≡ []))
    by_name b h = elim (name_cases b.config.name) [
      | inl none_given ↦ inr (rw none_given, none_given)
      | inr (full, given) ↦ inl (b.config, rw full, given, h.0, h.1)
    ]
