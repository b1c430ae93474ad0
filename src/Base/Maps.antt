-- ===== src/Base/Maps.antt =====
-- `std::collections::HashMap<String, V>`, as the entry found at each key. A test given to `retain`
-- is run once for each entry, and sees its key.
use Prim.Native.String.{String}
use mathlib.Core.Bool.{Bool}
use mathlib.Core.Option.{Option, none, some}
use text.Mathlib.Text.{◌==◌}
use kaguya.Base.Tests.{if◌then◌else◌}

abbrev pub HashMap : Type 0 → Type 0
HashMap V = String → Option V

abbrev pub keep_if : {V : Type 0} → (V → Bool) → Option V → Option V
keep_if p none = none
keep_if p (some v) = if p v then some v else none

module _ {V : Type 0} where
  abbrev pub empty : HashMap V
  empty k = none

  abbrev pub insert : String → V → HashMap V → HashMap V
  insert key v m k = if key == k then some v else m k

  abbrev pub remove : String → HashMap V → HashMap V
  remove key m k = if key == k then none else m k

  abbrev pub retain_entries : (String → V → Bool) → HashMap V → HashMap V
  retain_entries p m k = keep_if (p k) (m k)
