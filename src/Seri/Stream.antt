-- ===== src/Seri/Stream.antt =====
-- The reader of src/lua-seri.c: the stream, and numbers and bytes off its front.
use service_lua.Base.{
  ℕ, ◌/◌, ◌%◌, ◌^◌, Bool, true, false, ◌&&◌, ◌||◌, not, Option, none, List, [], ◌∷◌, ◌++◌,
  replicate, if◌then◌else◌, ◌==◌, leb, ltb, set, get_or, length, take, drop, ℤ, pos,
}
use service_lua.Base.Int.{to_word, of_word}
use service_lua.Seri.Bytes.{of_le}
use service_lua.Seri.Value.{
  Value, nil, number, type_number, type_number_zero, type_number_byte, type_number_word,
  type_number_dword, type_number_qword, type_number_real, max_depth,
}
use service_lua.Seri.Result.{Result, ok, raised, outside, invalid_stream, ◌>>=◌}

-- A store into a new table: `lua_rawseti` or `lua_rawset`.
pub data Slot : Type 0 where
  index : ℕ → Slot
  key : Value → Slot

-- `struct read_block` with its `struct stack`. `rest` are the `len` bytes of the buffer from `ptr` on.
-- `tables` are the tables made, each with the stores into it in order; a table is the value
-- `table i` for its place `i` in the list. `refs` is the Lua table at `ref_index`, nil at first.
-- `stack` is what stands on Lua's stack for the value that is being read: the tables around it, and in front of
-- a value its key. An ancestor is a place in it, counted from 0; `luaL_checkstack` always finds room.
pub record Reader : Type 0 where
  pub rest : List ℕ
  pub depth : ℕ
  pub objectid : ℕ
  pub ancestor : List ℕ
  pub stack : List Value
  pub refs : Option (List (ℕ × ℕ))
  pub tables : List (List (Slot × Value))

-- `rball_init`
abbrev pub rball_init : List ℕ → Reader
rball_init bytes = record {
  rest = bytes;
  depth = 0;
  objectid = 0;
  ancestor = replicate max_depth 0;
  stack = [];
  refs = none;
  tables = [];
}

-- A C function over the reader that may raise an error.
abbrev pub Read : Type 0 → Type 0
Read A = Reader → Result (A × Reader)

-- `rb_read`, for `sz` not negative, with the test for NULL that follows each call
unfoldable pub rb_read : ℕ → Read (List ℕ)
rb_read sz s =
    if ltb (length s.rest) sz
    then raised (invalid_stream (length s.rest))
    else ok (take sz s.rest, record s { rest = drop sz s.rest })

-- A byte, or a native integer of `n` bytes, as its bit pattern
unfoldable pub read_word : ℕ → Read ℕ
unfolding rb_read
read_word n s = rb_read n s >>= λ (bytes, s'). ok (of_le bytes, s')

unfoldable pub get_integer : ℕ → Read ℤ
unfolding read_word
get_integer cookie s =
    if cookie == type_number_zero
    then ok (pos 0, s)
    else if cookie == type_number_byte
    then (read_word 1 s >>= λ (n, s'). ok (pos n, s'))
    else if cookie == type_number_word
    then (read_word 2 s >>= λ (n, s'). ok (pos n, s'))
    else if cookie == type_number_dword
    then (read_word 4 s >>= λ (n, s'). ok (of_word (2 ^ 32) n, s'))
    else if cookie == type_number_qword
    then (read_word 8 s >>= λ (n, s'). ok (of_word (2 ^ 64) n, s'))
    else raised (invalid_stream (length s.rest))

-- `get_real` and `get_pointer`
unfoldable pub get_real : Read ℕ
unfolding read_word
get_real s = read_word 8 s

unfoldable pub get_pointer : Read ℕ
unfolding read_word
get_pointer s = read_word 8 s

-- `get_buffer`. Its `int len` is negative for 2 ^ 31 and more: then the test of `rb_read` passes, and
-- memory outside the buffer is read.
unfoldable pub get_buffer : ℕ → Read (List ℕ)
unfolding rb_read
get_buffer len s = if leb (2 ^ 31) len then outside else rb_read len s

-- `(int)`
unfoldable pub to_int : ℤ → ℤ
unfolding to_word of_word
to_int v = of_word (2 ^ 32) (to_word (2 ^ 32) v)

unfoldable pub get_extend_integer : Read ℤ
unfolding read_word get_integer
get_extend_integer s = read_word 1 s >>= λ (type, s').
    if not (type % 8 == type_number) || type / 8 == type_number_real
    then raised (invalid_stream (length s'.rest))
    else get_integer (type / 8) s' >>= λ (v, s''). ok (to_int v, s'')

-- A store into the table at place `t`
unfoldable pub raw_set : ℕ → Slot → Value → Reader → Reader
raw_set t k v s = record s { tables = set s.tables t (get_or s.tables t [] ++ ((k, v) ∷ [])) }

-- A double that is no number: `lua_rawset` refuses it as a key.
unfoldable pub is_nan : Value → Bool
is_nan (number bits) = bits / 2 ^ 52 % 2 ^ 11 == 2047 && ltb 0 (bits % 2 ^ 52)
is_nan _ = false

unfoldable pub is_nil : Value → Bool
is_nil nil = true
is_nil _ = false
