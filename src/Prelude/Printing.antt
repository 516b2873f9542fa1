-- ===== src/Prelude/Printing.antt =====
-- `json.dumps` with `ensure_ascii`.
use Prim.Native.Char.{Char, code}
use Prim.Native.Nat.{ℕ, zero, suc, ◌+◌, ◌-◌, ◌/◌, ◌%◌}
use Prim.Native.String.{String, ◌++◌}
use mathlib.Core.Bool.{true, false, ◌&&◌}
use mathlib.Core.List.{List, [], ◌∷◌}
use dsh_api.Prelude.Chars.{chars}
use dsh_api.Prelude.Decimal.{decimal}
use dsh_api.Prelude.Int.{ℤ, pos, negsuc}
use dsh_api.Prelude.Json.{
  Json, null, boolean, integer, real, text, array, object, Items, no_items, item, Fields, no_fields,
  field,
}
use dsh_api.Prelude.Tests.{leb, eqb, if◌then◌else◌}
use dsh_api.Prelude.Text.{concat}

abbrev hex_digit : ℕ → String → String
hex_digit zero (String.◌∷◌ c s) = String.◌∷◌ c ""
hex_digit (suc n) (String.◌∷◌ c s) = hex_digit n s
hex_digit _ String.[] = ""

abbrev digit : ℕ → String
digit n = hex_digit (n % 16) "0123456789abcdef"

-- `\uXXXX`
abbrev escape_unit : ℕ → String
escape_unit n = concat ("\\u" ∷ digit (n / 4096) ∷ digit (n / 256) ∷ digit (n / 16) ∷ digit n ∷ [])

-- A code above the first plane is a surrogate pair.
abbrev escape_code : ℕ → String
escape_code n =
    if leb n 65535
    then escape_unit n
    else concat
        (escape_unit (55296 + (n - 65536) / 1024) ∷ escape_unit (56320 + (n - 65536) % 1024) ∷ [])

-- `ensure_ascii`: all but the printable ASCII characters is escaped.
unfoldable pub escape_char : Char → String
escape_char c =
    let n = code c in
    if eqb n 34
    then "\\\""
    else if eqb n 92
    then "\\\\"
    else if eqb n 10
    then "\\n"
    else if eqb n 13
    then "\\r"
    else if eqb n 9
    then "\\t"
    else if eqb n 8
    then "\\b"
    else if eqb n 12
    then "\\f"
    else if leb 32 n && leb n 126
    then String.◌∷◌ c ""
    else escape_code n

abbrev escape_all : List Char → List String
escape_all [] = []
escape_all (c ∷ cs) = escape_char c ∷ escape_all cs

-- A JSON string.
unfoldable pub quote : String → String
unfolding escape_char chars
quote s = concat ("\"" ∷ concat (escape_all (chars s)) ∷ "\"" ∷ [])

-- `str` of a whole number.
unfoldable pub show_int : ℤ → String
unfolding decimal
show_int (pos n) = decimal n
show_int (negsuc n) = "-" ++ decimal (suc n)

-- `json.dumps(value)`; `rest` is what stands before each further item.
unfoldable mutual
  unfolding quote show_int

  pub dumps : Json → String
  dumps null = "null"
  dumps (boolean true) = "true"
  dumps (boolean false) = "false"
  dumps (integer n) = show_int n
  dumps (real r nonzero) = r
  dumps (text s) = quote s
  dumps (array js) = concat ("[" ∷ dump_items "" js ∷ "]" ∷ [])
  dumps (object fs) = concat ("{" ∷ dump_fields "" fs ∷ "}" ∷ [])

  pub dump_items : String → Items → String
  dump_items rest no_items = ""
  dump_items rest (item j js) = concat (rest ∷ dumps j ∷ dump_items ", " js ∷ [])

  pub dump_fields : String → Fields → String
  dump_fields rest no_fields = ""
  dump_fields rest (field k j fs) =
      concat (rest ∷ quote k ∷ ": " ∷ dumps j ∷ dump_fields ", " fs ∷ [])
