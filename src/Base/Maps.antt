-- ===== src/Base/Maps.antt =====
-- `std::unordered_map`, which the program never iterates: a function from keys.
use mathlib.Core.Option.{Option, none, some}
use mathlib.Core.Bool.{Bool, true, false}
use inf.Base.Tests.{Eq, ◌==◌, if◌then◌else◌}

abbrev pub Map : Type 0 → Type 0 → Type 0
Map K V = K → Option V

abbrev pub is_some {ℓ} : {V : Type ℓ} → Option V → Bool
is_some none = false
is_some (some v) = true

module _ {K V : Type 0} where
  abbrev pub empty_map : Map K V
  empty_map k = none

module _ {K V : Type 0} ⦃e : Eq K⦄ where
  abbrev pub insert : Map K V → K → V → Map K V
  insert m k v j = if k == j then some v else m j

  abbrev pub erase : Map K V → K → Map K V
  erase m k j = if k == j then none else m j
