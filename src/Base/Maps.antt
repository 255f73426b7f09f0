-- ===== src/Base/Maps.antt =====
-- A `HashMap` that is only read, written and emptied at a key: a function from keys. Nothing depends on
-- its order.
use mathlib.Core.Bool.{Bool}
use mathlib.Core.Option.{Option, none, some}
use mathlib.Core.List.{List, [], ◌∷◌}
use slotbus.Base.Tests.{if◌then◌else◌}

module _ {K V : Type 0} (eq : K → K → Bool) where
  -- `map.insert(k, v)` with `some v`, and `map.remove(&k)` with `none`.
  abbrev pub put : K → Option V → (K → Option V) → K → Option V
  put k v m j = if eq j k then v else m j

  -- `pairs.into_iter().collect()`: of two pairs with one key the later stays.
  pub collect : List (K × V) → K → Option V
  collect [] j = none
  collect ((k, v) ∷ rest) j = elim (collect rest j) [
    | some later ↦ some later
    | none ↦ if eq j k then some v else none
  ]
