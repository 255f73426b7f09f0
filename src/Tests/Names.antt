-- ===== src/Tests/Names.antt =====
-- Names and configurations at concrete texts.
use slotbus.Base.{ℕ, ◌≡◌, ◌≢◌, ◌≤◌, ◌⊎◌, ◌++◌, refl, arith, ascii, Text, [], ◌∷◌}
use slotbus.Error.{ok, panicked}
use slotbus.Config.{SlotBusConfig}
use slotbus.Config.OsName.{macos, linux, sanitize_os_name, is_char_boundary}
use slotbus.Config.Builder.{builder, build, calls, sets_name, sets_num_slots, build-calls}
use slotbus.Config.Names.{request, overflow_name_gen-injective}
use slotbus.Tests.Fixture.{config}

abbrev long_name : Text
long_name = ascii "slotbus-a-worker-with-a-long-name-req"

-- The cut before the last 15 bytes of this name splits the two bytes of one character.
abbrev split_name : Text
split_name = ascii "slotbus-a-long-worker" ++ (195 ∷ 169 ∷ ascii "-with-a-suffix")

split_name_panics : sanitize_os_name macos split_name ≡ panicked
unfolding sanitize_os_name is_char_boundary
split_name_panics = refl

overflow_name_gen-injective_example :
    let s : ℕ = 3 in let g : ℕ = 7 in (request ≡ request) × (s ≡ s) × (g ≡ g)
overflow_name_gen-injective_example =
    overflow_name_gen-injective linux config request request 3 7 3 7 refl (omega arith)
      (omega arith) (omega arith) (omega arith) refl

build-calls_example :
    let b = calls builder (sets_name (ascii "w") ∷ sets_num_slots 500 ∷ []) in
    ((c : SlotBusConfig) × (build b ≡ ok c)
      × (c.name ≢ [])
      × (1 ≤ c.num_slots)
      × (c.num_slots ≤ 256))
    ⊎ ((build b ≡ panicked) × (b.config.name ≡ []))
build-calls_example = build-calls (sets_name (ascii "w") ∷ sets_num_slots 500 ∷ [])
