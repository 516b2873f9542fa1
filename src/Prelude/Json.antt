-- ===== src/Prelude/Json.antt =====
-- What `json.loads` makes of a text, and what Python reads of such a value.
use dsh_api.Prelude.Int.{ℤ, pos}
use Prim.Native.Nat.{zero}
use Prim.Native.String.{String}
use mathlib.Core.Bool.{Bool, true, false, not}
use mathlib.Core.Option.{Option, none, some}
use mathlib.Core.List.{List, [], ◌∷◌}
use dsh_api.Prelude.Tests.{if◌then◌else◌}
use dsh_api.Prelude.Text.{◌==◌, is_empty}

mutual
  -- `real` is a number with a fraction or an exponent, as it is written, and whether it is not 0.
  pub data Json : Type 0 where
    null : Json
    boolean : Bool → Json
    integer : ℤ → Json
    real : String → Bool → Json
    text : String → Json
    array : Items → Json
    object : Fields → Json

  pub data Items : Type 0 where
    no_items : Items
    item : Json → Items → Items

  pub data Fields : Type 0 where
    no_fields : Fields
    field : String → Json → Fields → Fields

-- `d.get(k)`: `json.loads` keeps the last of several equal keys.
unfoldable pub lookup : String → Fields → Option Json
lookup k no_fields = none
lookup k (field j v fs) =
    let later = lookup k fs in
    elim later [ some w ↦ some w | none ↦ if j == k then some v else none ]

-- `bool(value)`
unfoldable pub truthy : Json → Bool
truthy null = false
truthy (boolean b) = b
truthy (integer (pos zero)) = false
truthy (integer _) = true
truthy (real r nonzero) = nonzero
truthy (text s) = not (is_empty s)
truthy (array no_items) = false
truthy (array _) = true
truthy (object no_fields) = false
truthy (object _) = true

unfoldable pub items : Items → List Json
items no_items = []
items (item j js) = j ∷ items js

-- `d[k] = v`: a key keeps its place, and a new one comes last.
unfoldable pub set_field : String → Json → Fields → Fields
set_field k v no_fields = field k v no_fields
set_field k v (field j w fs) = if j == k then field j v fs else field j w (set_field k v fs)

-- `d.update(e)`
unfoldable pub update_fields : Fields → Fields → Fields
unfolding set_field
update_fields fs no_fields = fs
update_fields fs (field k v gs) = update_fields (set_field k v fs) gs
