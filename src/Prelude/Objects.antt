-- ===== src/Prelude/Objects.antt =====
-- Reading a dict or a list that came from JSON.
use Prim.Native.String.{String}
use mathlib.Core.Bool.{Bool, true, false}
use mathlib.Core.Option.{Option, none, some}
use mathlib.Core.List.{List, [], ◌∷◌}
use text.Mathlib.Text.{◌==◌ as str_eq}
use kra_analysis.Prelude.Tests.{if◌then◌else◌}
use kra_analysis.Prelude.Value.{Value, Fields, Items, null, end, field, nil, cons}

abbrev pub find_field : Fields → String → Option Value
find_field end k = none
find_field (field j v f) k = if str_eq j k then some v else find_field f k

abbrev pub or_null : Option Value → Value
or_null none = null
or_null (some v) = v

-- mapping.get(k)
abbrev pub get_field : Fields → String → Value
get_field f k = or_null (find_field f k)

abbrev pub elements : Items → List Value
elements nil = []
elements (cons v xs) = v ∷ elements xs

-- mapping.items()
abbrev pub entries : Fields → List (String × Value)
entries end = []
entries (field k v f) = (k, v) ∷ entries f

abbrev pub is_null : Value → Bool
is_null null = true
is_null _ = false
