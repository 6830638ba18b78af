-- ===== src/Seri/Total.antt =====
-- What the reader takes off the stream: each step raises an error, or leaves fewer bytes than a bound.
pub mod Ends
use service_lua.Base.{
  ℕ, zero, suc, ◌+◌, ◌-◌, ◌/◌, ◌%◌, ◌^◌, ◌≤◌, ◌<◌, ◌≡◌, ◌≢◌, ◌⊎◌, refl, ap, sym, subst, Bool, true,
  false, ◌&&◌, ◌||◌, not, Option, none, some, List, [], ◌∷◌, ◌++◌, if◌then◌else◌, ◌==◌, leb, ltb,
  arith, length, take, drop, length-take, length-drop, Bool-cases, Option-cases, inl, inr, ℤ, pos,
  negsuc,
}
use service_lua.Base.Int.{of_word}
use service_lua.Seri.Bytes.{of_le}
use service_lua.Seri.Value.{
  Value, type_boolean_nil, type_boolean_false, type_boolean_true, nil, boolean, number, string,
  light_userdata, c_function, table, extend_number, type_number, type_number_real, type_table,
  type_table_mark,
}
use service_lua.Seri.Result.{
  Result, ok, raised, outside, out_of_fuel, SeriError, ◌>>=◌, nan_index, invalid_object,
}
use service_lua.Seri.Stream.{
  Read, Reader, rb_read, read_word, get_integer, get_real, get_pointer, get_buffer,
  get_extend_integer, index, key, raw_set, is_nan, is_nil, rball_init,
}
use service_lua.Seri.Unpack.{
  unpack_array, unpack_hash, table_size, enter_table, unpack_table, unpack_ref, find_object,
  push_boolean, push_number, push_userdata, push_long_string, push_value, unpack_one, unpack_all,
  seri_unpack, rounds,
}

-- A step that raises an error, reads outside the buffer, or returns with fewer than `n` bytes left.
pub data Below {Out : Type 0} (left : Out → ℕ) (n : ℕ) : Result Out → Type 0 where
  raises : (e : SeriError) → Below left n (raised e)
  strays : Below left n outside
  returns : (o : Out) → left o < n → Below left n (ok o)

abbrev pub remaining : Reader → ℕ
remaining s = length s.rest

abbrev pub after : {A : Type 0} → A × Reader → ℕ
after p = remaining p.1

pub Below-ends :
    {Out : Type 0} (left : Out → ℕ) {n : ℕ} {r : Result Out} → Below left n r → r ≢ out_of_fuel
Below-ends left (raises e) = λ q. cc q
Below-ends left strays = λ q. cc q
Below-ends left (returns o h) = λ q. cc q

pub Below-bind :
    {In Out : Type 0} (left : In → ℕ) (left' : Out → ℕ) {m n : ℕ} {r : Result In}
    (k : In → Result Out)
    → Below left m r
    → ((a : In) → left a < m → Below left' n (k a))
    → Below left' n (r >>= k)
Below-bind left left' k (raises e) next = raises e
Below-bind left left' k strays next = strays
Below-bind left left' k (returns a h) next = next a h

pub Below-if :
    {Out : Type 0} (left : Out → ℕ) {n : ℕ} (b : Bool) {r r' : Result Out}
    → Below left n r
    → Below left n r'
    → Below left n (if b then r else r')
Below-if left true here there = here
Below-if left false here there = there

pub Below-wider :
    {Out : Type 0} (left : Out → ℕ) {m n : ℕ} {r : Result Out}
    → Below left m r
    → m ≤ n
    → Below left n r
Below-wider left (raises e) h = raises e
Below-wider left strays h = strays
Below-wider left (returns o k) h = returns o (omega (arith, h, k))

-- A value that is read from no byte
pub same-Below : {A : Type 0} (a : A) (s : Reader) → Below after (remaining s + 1) (ok (a, s))
same-Below a s = returns (a, s) (omega arith)

pub rb_read-Below : (sz : ℕ) (s : Reader) → Below after (remaining s + 1) (rb_read sz s)
unfolding rb_read
rb_read-Below sz s =
    Below-if after (ltb (length s.rest) sz) (raises _)
      (returns _ (omega (arith, length-drop sz s.rest)))

pub rb_read-byte : (s : Reader) → Below after (remaining s) (rb_read 1 s)
unfolding rb_read
rb_read-byte s = elim (Bool-cases (ltb (length s.rest) 1)) [
  | inl short ↦ rw short (raises _)
  | inr long ↦ rw long (returns _ (ground (arith, length-drop 1 s.rest, long)))
]

pub read_word-Below : (n : ℕ) (s : Reader) → Below after (remaining s + 1) (read_word n s)
unfolding read_word
read_word-Below n s = Below-bind after after _ (rb_read-Below n s) (λ p h. returns _ h)

pub read_word-byte : (s : Reader) → Below after (remaining s) (read_word 1 s)
unfolding read_word
read_word-byte s = Below-bind after after _ (rb_read-byte s) (λ p h. returns _ h)

-- A word that is turned into something else
pub word-Below :
    {A : Type 0} (n : ℕ) (s : Reader) (f : ℕ → A)
    → Below after (remaining s + 1) (read_word n s >>= λ (v, s'). ok (f v, s'))
word-Below n s f = Below-bind after after _ (read_word-Below n s) (λ p h. returns _ h)

pub get_integer-Below :
    (cookie : ℕ) (s : Reader) → Below after (remaining s + 1) (get_integer cookie s)
unfolding get_integer
get_integer-Below cookie s = Below-if after _ (returns _ (omega arith)) (
    Below-if after _ (word-Below 1 s _) (
      Below-if after _ (word-Below 2 s _)
        (Below-if after _ (word-Below 4 s _) (Below-if after _ (word-Below 8 s _) (raises _)))))

pub get_buffer-Below : (n : ℕ) (s : Reader) → Below after (remaining s + 1) (get_buffer n s)
unfolding get_buffer
get_buffer-Below n s = Below-if after _ strays (rb_read-Below n s)

pub get_extend_integer-Below : (s : Reader) → Below after (remaining s + 1) (get_extend_integer s)
unfolding get_extend_integer
get_extend_integer-Below s = Below-bind after after _ (read_word-Below 1 s) (λ p h.
    Below-if after _ (raises _) (
      Below-wider after
        (Below-bind after after _ (get_integer-Below (p.0 / 8) p.1) (λ q k. returns _ k))
        (omega (arith, h))))

pub push_boolean-Below :
    (cookie : ℕ) (s : Reader) → Below after (remaining s + 1) (push_boolean cookie s)
unfolding push_boolean
push_boolean-Below cookie s = Below-if after (cookie == type_boolean_nil) (same-Below nil s) (
    Below-if after (cookie == type_boolean_false) (same-Below (boolean false) s)
      (Below-if after (cookie == type_boolean_true) (same-Below (boolean true) s) (raises _)))

pub push_number-Below :
    (of_integer : ℤ → ℕ) (cookie : ℕ) (s : Reader)
    → Below after (remaining s + 1) (push_number of_integer cookie s)
unfolding push_number get_real
push_number-Below of_integer cookie s =
    Below-if after _ (word-Below 8 s number)
      (Below-bind after after _ (get_integer-Below cookie s) (λ p h. returns _ h))

pub push_userdata-Below :
    (cookie : ℕ) (s : Reader) → Below after (remaining s + 1) (push_userdata cookie s)
unfolding push_userdata get_pointer
push_userdata-Below cookie s =
    Below-if after _ (word-Below 8 s light_userdata)
      (Below-if after _ (word-Below 8 s c_function) (raises _))

pub push_long_string-Below :
    (cookie : ℕ) (s : Reader) → Below after (remaining s + 1) (push_long_string cookie s)
unfolding push_long_string
push_long_string-Below cookie s =
    Below-if after _
      (Below-bind after after _ (read_word-Below cookie s) (λ p h.
        Below-bind after after _ (get_buffer-Below p.0 p.1)
          (λ q k. returns _ (omega (arith, h, k)))))
      (raises _)

pub found-Below :
    {n : ℕ} (id : ℤ) (s : Reader)
    → remaining s < n
    → Below after n (elim (find_object id s.refs) as (λ _. Result (Value × Reader)) [
      | some t ↦ ok (table t, s)
      | none ↦ raised (invalid_object id)
    ])
found-Below id s h = elim (Option-cases (find_object id s.refs)) [
  | inl missing ↦ rw missing (raises _)
  | inr (t, found) ↦ rw found (returns _ h)
]

pub unpack_ref-Below : (ref : ℕ) (s : Reader) → Below after (remaining s + 1) (unpack_ref ref s)
unfolding unpack_ref
unpack_ref-Below ref s =
    Below-if after _
      (Below-bind after after _ (get_extend_integer-Below s) (λ p h. found-Below p.0 p.1 h))
      (Below-if after _ (raises _) (returns _ (omega arith)))

pub table_size-Below :
    (cookie : ℕ) (s : Reader) → Below after (remaining s + 1) (table_size cookie s)
unfolding table_size
table_size-Below cookie s = Below-if after _ (get_extend_integer-Below s) (returns _ (omega arith))
