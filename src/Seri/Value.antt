-- ===== src/Seri/Value.antt =====
-- Lua values as the serializer sees them through the Lua C API, and the tags of the stream.
use service_lua.Base.{
  ℕ, ◌+◌, ◌-◌, ◌*◌, ◌/◌, ◌%◌, ◌^◌, Bool, Option, none, some, List, if◌then◌else◌, ◌==◌, ltb,
}

-- The values that `lua_type` tells apart. A number is the bit pattern of its double, a string its
-- bytes, a pointer its address; a table is its identity, what `lua_topointer` gives. `closure` is a
-- function that is no C function, or has upvalues; `other` is a userdata, a thread or a cdata.
pub data Value : Type 0 where
  nil : Value
  boolean : Bool → Value
  number : ℕ → Value
  string : List ℕ → Value
  light_userdata : ℕ → Value
  c_function : ℕ → Value
  closure : Value
  table : ℕ → Value
  other : Value

-- A table as the API shows it: `lua_objlen`, `lua_rawgeti`, the entries in the order of `lua_next`, and
-- what its `__pairs` metamethod yields, if it has one.
pub record LuaTable : Type 0 where
  pub objlen : ℕ
  pub rawgeti : ℕ → Value
  pub entries : List (Value × Value)
  pub pairs : Option (List (Value × Value))

abbrev pub Heap : Type 0
Heap = ℕ → LuaTable

abbrev pub type_boolean : ℕ
type_boolean = 0

abbrev pub type_boolean_nil : ℕ
type_boolean_nil = 0

abbrev pub type_boolean_false : ℕ
type_boolean_false = 1

abbrev pub type_boolean_true : ℕ
type_boolean_true = 2

abbrev pub type_number : ℕ
type_number = 1

abbrev pub type_number_zero : ℕ
type_number_zero = 0

abbrev pub type_number_byte : ℕ
type_number_byte = 1

abbrev pub type_number_word : ℕ
type_number_word = 2

abbrev pub type_number_dword : ℕ
type_number_dword = 4

abbrev pub type_number_qword : ℕ
type_number_qword = 6

abbrev pub type_number_real : ℕ
type_number_real = 8

abbrev pub type_userdata : ℕ
type_userdata = 2

abbrev pub type_userdata_pointer : ℕ
type_userdata_pointer = 0

abbrev pub type_userdata_cfunction : ℕ
type_userdata_cfunction = 1

abbrev pub type_short_string : ℕ
type_short_string = 3

abbrev pub type_long_string : ℕ
type_long_string = 4

abbrev pub type_table : ℕ
type_table = 5

abbrev pub type_table_mark : ℕ
type_table_mark = 6

abbrev pub type_ref : ℕ
type_ref = 7

abbrev pub max_cookie : ℕ
max_cookie = 32

abbrev pub extend_number : ℕ
extend_number = max_cookie - 1

abbrev pub max_depth : ℕ
max_depth = 31

abbrev pub max_reference : ℕ
max_reference = 32

-- `COMBINE_TYPE` stored in a uint8_t. The type has three bits, so `|` adds.
abbrev pub combine_type : ℕ → ℕ → ℕ
combine_type t v = (t + v * 8) % 256

-- The positive whole number that a double's bit pattern stands for, if it is one below 2 ^ 53
-- (IEEE 754: 52 bits of fraction, 11 of exponent with bias 1023, one of sign).
unfoldable pub whole : ℕ → Option ℕ
whole bits =
    let exponent = bits / 2 ^ 52 in
    let significand = 2 ^ 52 + bits % 2 ^ 52 in
    if ltb exponent 1023
    then none
    else if ltb 1075 exponent
    then none
    else if significand % 2 ^ (1075 - exponent) == 0
    then some (significand / 2 ^ (1075 - exponent))
    else none
