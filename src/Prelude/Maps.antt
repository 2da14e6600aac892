-- ===== src/Prelude/Maps.antt =====
-- A `Map` with text keys that the code never iterates over: a function from keys to values.
use Prim.Native.String.{String}
use mathlib.Core.Option.{Option, none, some}
use text.Mathlib.Text.{◌==◌}
use rexharge_citrineos_core.Prelude.Tests.{if◌then◌else◌}

abbrev pub Dict {ℓ} : Type ℓ → Type ℓ
Dict V = String → Option V

module _ {ℓ} {V : Type ℓ} where
  abbrev pub empty : Dict V
  empty k = none

  -- map.set(k, v)
  abbrev pub insert : String → V → Dict V → Dict V
  insert k v m j = if k == j then some v else m j

  -- map.delete(k)
  abbrev pub remove : String → Dict V → Dict V
  remove k m j = if k == j then none else m j
