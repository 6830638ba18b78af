-- ===== src/Seri/Scalar.antt =====
-- The writers of src/lua-seri.c for all values but tables.
use service_lua.Base.{
  ℕ, ◌^◌, Bool, false, List, [], ◌∷◌, if◌then◌else◌, ◌==◌, ltb, length, ℤ, pos, negsuc,
}
use service_lua.Base.Int.{to_word}
use service_lua.Seri.Bytes.{le_bytes}
use service_lua.Seri.Block.{WriteBlock, wb_push}
use service_lua.Seri.Value.{
  combine_type, type_boolean, type_boolean_nil, type_boolean_true, type_boolean_false, type_number,
  type_number_zero, type_number_byte, type_number_word, type_number_dword, type_number_qword,
  type_number_real, type_userdata, type_short_string, type_long_string, max_cookie,
}

-- One byte.
abbrev pub push_tag : WriteBlock → ℕ → ℕ → WriteBlock
push_tag wb t v = wb_push wb (combine_type t v ∷ [])

unfoldable pub wb_nil : WriteBlock → WriteBlock
wb_nil wb = push_tag wb type_boolean type_boolean_nil

unfoldable pub wb_boolean : WriteBlock → Bool → WriteBlock
wb_boolean wb b = push_tag wb type_boolean (if b then type_boolean_true else type_boolean_false)

-- `v == (int32_t)v`
unfoldable pub fits_int32 : ℤ → Bool
fits_int32 (pos n) = ltb n (2 ^ 31)
fits_int32 (negsuc n) = ltb n (2 ^ 31)

-- The branches of `wb_integer` for `v` not 0, and in the range of int32_t.
unfoldable pub wb_integer_int32 : WriteBlock → ℤ → WriteBlock
wb_integer_int32 wb (negsuc n) =
    wb_push (push_tag wb type_number type_number_dword) (le_bytes 4 (to_word (2 ^ 32) (negsuc n)))
wb_integer_int32 wb (pos n) =
    if ltb n 0x100
    then wb_push (push_tag wb type_number type_number_byte) (le_bytes 1 n)
    else if ltb n 0x10000
    then wb_push (push_tag wb type_number type_number_word) (le_bytes 2 n)
    else wb_push (push_tag wb type_number type_number_dword) (le_bytes 4 n)

unfoldable pub is_zero : ℤ → Bool
is_zero (pos n) = n == 0
is_zero (negsuc n) = false

unfoldable pub wb_integer : WriteBlock → ℤ → WriteBlock
wb_integer wb v =
    if is_zero v
    then push_tag wb type_number type_number_zero
    else if fits_int32 v
    then wb_integer_int32 wb v
    else wb_push (push_tag wb type_number type_number_qword) (le_bytes 8 (to_word (2 ^ 64) v))

-- `v` is the bit pattern of the double.
unfoldable pub wb_real : WriteBlock → ℕ → WriteBlock
wb_real wb v = wb_push (push_tag wb type_number type_number_real) (le_bytes 8 v)

unfoldable pub wb_pointer : WriteBlock → ℕ → ℕ → WriteBlock
wb_pointer wb v subtype = wb_push (push_tag wb type_userdata subtype) (le_bytes 8 v)

-- The length is an int, so it is below 2 ^ 31 for every string that the caller can pass.
unfoldable pub wb_string : WriteBlock → List ℕ → WriteBlock
wb_string wb str =
    let len = length str in
    if ltb len max_cookie
    then (let tagged = push_tag wb type_short_string len in
        if ltb 0 len then wb_push tagged str else tagged)
    else if ltb len 0x10000
    then wb_push (wb_push (push_tag wb type_long_string 2) (le_bytes 2 len)) str
    else wb_push (wb_push (push_tag wb type_long_string 4) (le_bytes 4 len)) str
