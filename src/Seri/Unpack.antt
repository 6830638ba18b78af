-- ===== src/Seri/Unpack.antt =====
-- The unpacker of src/lua-seri.c.
use service_lua.Base.{
  ℕ, zero, suc, ◌+◌, ◌-◌, ◌/◌, ◌%◌, ◌^◌, true, false, ◌||◌, Option, none, some, List, [], ◌∷◌, ◌++◌,
  if◌then◌else◌, ◌==◌, leb, ltb, set, get_or, length, take, drop, ℤ, pos, negsuc,
}
use service_lua.Base.Int.{of_word}
use service_lua.Seri.Bytes.{of_le}
use service_lua.Seri.Value.{
  Value, nil, boolean, number, string, light_userdata, c_function, table, type_boolean,
  type_boolean_nil, type_boolean_false, type_boolean_true, type_number, type_number_real,
  type_userdata, type_userdata_pointer, type_userdata_cfunction, type_short_string,
  type_long_string, type_table, type_table_mark, type_ref, extend_number, max_depth,
}
use service_lua.Seri.Result.{
  Result, ok, raised, outside, out_of_fuel, invalid_stream, invalid_object, invalid_ref,
  invalid_boolean, invalid_userdata, nan_index, ◌>>=◌,
}
use service_lua.Seri.Refs.{raw_get}
use service_lua.Seri.Stream.{
  index, key, Read, Reader, get_buffer, get_extend_integer, get_integer, get_pointer, get_real,
  is_nan, is_nil, raw_set, rball_init, read_word,
}

-- The two loops of `unpack_table`, with `unpack` for `unpack_one`, which leaves the stack as it found it but
-- for the value
unfoldable pub unpack_array : Read Value → ℕ → ℕ → ℕ → Reader → Result Reader
unfolding raw_set
unpack_array unpack t i zero s = ok s
unpack_array unpack t i (suc n) s =
    unpack s >>= λ (v, s'). unpack_array unpack t (i + 1) n (raw_set t (index i) v s')

unfoldable pub unpack_hash : Read Value → ℕ → ℕ → Reader → Result Reader
unfolding raw_set is_nil is_nan
unpack_hash unpack t zero s = out_of_fuel
unpack_hash unpack t (suc f) s = unpack s >>= λ (k, s₁). elim (is_nil k) [
  | true ↦ ok s₁
  | false ↦ unpack (record s₁ { depth = s₁.depth + 1; stack = s₁.stack ++ (k ∷ []) }) >>= λ (v, s₂).
      (let s₃ : Reader = record s₂ { depth = s₂.depth - 1; stack = s₁.stack } in
        elim (is_nan k) [
          | true ↦ raised nan_index
          | false ↦ unpack_hash unpack t f (raw_set t (key k) v s₃)
        ])
]

-- The size of the array; a negative one makes no round of the loop.
unfoldable pub table_size : ℕ → Read ℤ
unfolding get_extend_integer
table_size cookie s = if cookie == extend_number then get_extend_integer s else ok (pos cookie, s)

unfoldable pub rounds : ℤ → ℕ
rounds (pos n) = n
rounds (negsuc n) = 0

-- `lua_createtable`, the entry of a marked table in the table of references, and the place of the new table
-- on the stack as an ancestor
unfoldable pub enter_table : ℕ → Reader → ℕ × Reader
enter_table type s =
    let t = length s.tables in
    let id = s.objectid + 1 in
    (
      t,
      record s {
        objectid = id;
        tables = s.tables ++ ([] ∷ []);
        refs =
            if type == type_table_mark
            then elim s.refs [ none ↦ some ((id, t) ∷ []) | some m ↦ some ((id, t) ∷ m) ]
            else s.refs;
        ancestor =
            if ltb s.depth max_depth then set s.ancestor s.depth (length s.stack) else s.ancestor;
        stack = s.stack ++ (table t ∷ []);
        depth = s.depth + 1;
      },
    )

unfoldable pub unpack_table : Read Value → ℕ → ℕ → Read Value
unfolding table_size rounds enter_table unpack_array unpack_hash
unpack_table unpack cookie type s = table_size cookie s >>= λ (array_size, s₁).
    (let (t, s₂) = enter_table type s₁ in
      unpack_array unpack t 1 (rounds array_size) s₂ >>= λ s₃.
      unpack_hash unpack t (length s₃.rest + 1) (record s₃ { depth = s₃.depth - 1 }) >>= λ s₄.
      ok (table t, record s₄ { stack = s.stack }))

unfoldable pub find_object : ℤ → Option (List (ℕ × ℕ)) → Option ℕ
unfolding raw_get
find_object (pos id) (some m) = raw_get id m
find_object (pos id) none = none
find_object (negsuc n) m = none

-- A reference to an ancestor pushes what stands at its place on the stack.
unfoldable pub unpack_ref : ℕ → Read Value
unfolding get_extend_integer find_object
unpack_ref ref s =
    if ref == extend_number
    then (get_extend_integer s >>= λ (id, s'). elim (find_object id s'.refs) [
      | some t ↦ ok (table t, s')
      | none ↦ raised (invalid_object id)
    ])
    else if leb s.depth ref
    then raised (invalid_ref ref s.depth)
    else ok (get_or s.stack (get_or s.ancestor ref 0) nil, s)

-- The cases of `push_value`
unfoldable pub push_boolean : ℕ → Read Value
push_boolean cookie s =
    if cookie == type_boolean_nil
    then ok (nil, s)
    else if cookie == type_boolean_false
    then ok (boolean false, s)
    else if cookie == type_boolean_true
    then ok (boolean true, s)
    else raised (invalid_boolean cookie)

-- `lua_pushinteger` stores a double; its bit pattern is `of_integer`. No stream of the packer has an
-- integer as a value: `pack_one` writes every number as a double.
unfoldable pub push_number : (ℤ → ℕ) → ℕ → Read Value
unfolding get_real get_integer
push_number of_integer cookie s =
    if cookie == type_number_real
    then (get_real s >>= λ (n, s'). ok (number n, s'))
    else get_integer cookie s >>= λ (v, s'). ok (number (of_integer v), s')

unfoldable pub push_userdata : ℕ → Read Value
unfolding get_pointer
push_userdata cookie s =
    if cookie == type_userdata_pointer
    then (get_pointer s >>= λ (p, s'). ok (light_userdata p, s'))
    else if cookie == type_userdata_cfunction
    then (get_pointer s >>= λ (p, s'). ok (c_function p, s'))
    else raised invalid_userdata

unfoldable pub push_long_string : ℕ → Read Value
unfolding get_buffer read_word
push_long_string cookie s =
    if cookie == 2 || cookie == 4
    then (read_word cookie s >>= λ (n, s'). get_buffer n s' >>= λ (str, s''). ok (string str, s''))
    else raised (invalid_stream (length s.rest))

unfoldable pub push_value : (ℤ → ℕ) → Read Value → ℕ → ℕ → Read Value
unfolding push_boolean push_number push_userdata push_long_string get_buffer unpack_table unpack_ref
push_value of_integer unpack type cookie s =
    if type == type_boolean
    then push_boolean cookie s
    else if type == type_number
    then push_number of_integer cookie s
    else if type == type_userdata
    then push_userdata cookie s
    else if type == type_short_string
    then (get_buffer cookie s >>= λ (str, s'). ok (string str, s'))
    else if type == type_long_string
    then push_long_string cookie s
    else if type == type_table || type == type_table_mark
    then unpack_table unpack cookie type s
    else if type == type_ref
    then unpack_ref cookie s
    else raised (invalid_stream (length s.rest))

-- The fuel bounds how deep tables stand in tables.
unfoldable pub unpack_one : (ℤ → ℕ) → ℕ → Read Value
unfolding read_word push_value
unpack_one of_integer zero s = out_of_fuel
unpack_one of_integer (suc f) s = read_word 1 s >>= λ (type, s').
    push_value of_integer (unpack_one of_integer f) (type % 8) (type / 8) s'

-- The loop of `seri_unpack`: values until the stream ends. Its fuel bounds their number, and the other
-- the depth of each.
unfoldable pub unpack_all : (ℤ → ℕ) → ℕ → ℕ → Reader → Result (List Value × Reader)
unfolding unpack_one
unpack_all of_integer d zero s = out_of_fuel
unpack_all of_integer d (suc f) s = elim s.rest [
  | [] ↦ ok ([], s)
  | b ∷ bs ↦ unpack_one of_integer d s >>= λ (v, s').
      unpack_all of_integer d f s' >>= λ (vs, s''). ok (v ∷ vs, s'')
]

-- `seri_unpack` of the bytes at its address. If there are fewer than the header says, those behind them may
-- be read. A negative length leaves no byte to read.
unfoldable pub seri_unpack : (ℤ → ℕ) → List ℕ → Result (List Value × Reader)
unfolding rounds of_word unpack_all
seri_unpack of_integer buffer =
    let len = rounds (of_word (2 ^ 32) (of_le (take 4 buffer))) in
    let read = unpack_all of_integer (len + 1) (len + 1) (rball_init (take len (drop 4 buffer))) in
    if ltb (length buffer) (4 + len) then outside else read
