-- ===== src/Seri/Tree/Table.antt =====
-- The reader makes a table, and reads its array and its entries.
use service_lua.Base.{
  ℕ, suc, ◌+◌, ◌*◌, ◌-◌, ◌/◌, ◌%◌, ◌^◌, ◌≤◌, ◌<◌, ◌≡◌, refl, ap, ◌∙◌, false, List, [], ◌∷◌, ◌++◌,
  ◌==◌, leb, length, arith, Bool-cases, inl, inr, length-append, ℤ, pos,
}
use service_lua.Seri.Value.{Value, extend_number, type_table, table}
use service_lua.Seri.Integer.{encode_integer, reads_integer}
use service_lua.Seri.Result.{Result, ok, ◌>>=◌}
use service_lua.Seri.Stream.{Read, Reader}
use service_lua.Seri.Decode.{at, read_byte}
use service_lua.Seri.Unpack.{
  unpack_one, unpack_array, unpack_hash, unpack_table, enter_table, push_value, table_size, rounds,
}
use service_lua.Seri.Tree.{encode_size}
use service_lua.Seri.Tree.Unpack.{Table, IsRead, IsFilled}

-- The tag and the size of a table: it is made, and its array and its entries are read.
module _ (of_integer : ℤ → ℕ) where
  abbrev body : ℕ → ℕ → Read Value
  body f n s =
      unpack_array (unpack_one of_integer f) (length s.tables) 1 n (enter_table type_table s).1
      >>= λ s₃.
          unpack_hash (unpack_one of_integer f) (length s.tables) (length s₃.rest + 1)
            (record s₃ { depth = s₃.depth - 1 })
          >>= λ s₄. ok (table (length s.tables), record s₄ { stack = s.stack })

  table_size-small :
      (f n : ℕ) (s : Reader) (r : List ℕ)
      → leb extend_number n ≡ false
      → unpack_one of_integer (suc f) (at s (((5 + n * 8) ∷ []) ++ r)) ≡ body f n (at s r)
  unfolding unpack_one push_value unpack_table table_size enter_table rounds
  table_size-small f n s r little =
      let type : (5 + n * 8) % 8 ≡ 5 = ground (arith, little) in
      let cookie : (5 + n * 8) / 8 ≡ n = ground (arith, little) in
      let other : (n == extend_number) ≡ false = ground (arith, little) in
      rw (read_byte s (5 + n * 8) r, type, cookie, other, unpack_table, table_size) refl

  table_size-large :
      (f n : ℕ) (s : Reader) (r : List ℕ)
      → n < 2 ^ 31
      → unpack_one of_integer (suc f) (at s ((253 ∷ encode_integer (pos n)) ++ r))
        ≡ body f n (at s r)
  unfolding unpack_one push_value unpack_table table_size enter_table rounds
  table_size-large f n s r small =
      rw
        (
          read_byte s 253 (encode_integer (pos n) ++ r),
          unpack_table,
          table_size,
          reads_integer s r (pos n) small,
        )
        refl

  unpack_one-size :
      (f n : ℕ) (s : Reader) (r : List ℕ)
      → n < 2 ^ 31
      → unpack_one of_integer (suc f) (at s (encode_size n ++ r)) ≡ body f n (at s r)
  unfolding encode_size
  unpack_one-size f n s r small = elim (Bool-cases (leb extend_number n)) [
    | inl large ↦ rw large (table_size-large f n s r small)
    | inr little ↦ rw little (table_size-small f n s r little)
  ]

  opened-tables : (s : Reader) → (enter_table type_table s).1.tables ≡ s.tables ++ ([] ∷ [])
  unfolding enter_table
  opened-tables s = refl

  -- A table, given its array and its entries
  pub table_step :
      (f n : ℕ) (s : Reader) (is es r : List ℕ) (array fields : Table × List Table)
      → n < 2 ^ 31
      → ((s' : Reader)
          → s'.tables ≡ s.tables ++ ([] ∷ [])
          → IsFilled s.tables [] [] array (es ++ r) (
              unpack_array
                (unpack_one of_integer f)
                (length s.tables)
                1
                n
                (at s' (is ++ (es ++ r)))))
      → ((s' : Reader) (g : ℕ)
          → s'.tables ≡ s.tables ++ (array.0 ∷ array.1)
          → length es ≤ g
          → IsFilled s.tables array.0 array.1 fields r
              (unpack_hash (unpack_one of_integer f) (length s.tables) g (at s' (es ++ r))))
      → IsRead s
          (table (length s.tables), (array.0 ++ fields.0) ∷ (array.1 ++ fields.1))
          r
          (unpack_one of_integer (suc f) (at s (encode_size n ++ (is ++ (es ++ r)))))
  unfolding enter_table
  table_step f n s is es r array fields small h₁ h₂ =
      let a = h₁ (enter_table type_table s).1 (opened-tables s) in
      let b =
        h₂ (record a.after { depth = a.after.depth - 1 }) (length (es ++ r) + 1) a.tables
          (omega (arith, length-append es r)) in
      record {
        after = record b.after { stack = s.stack };
        done =
            unpack_one-size f n s (is ++ (es ++ r)) small
            ∙ ap
                (λ (res : Result Reader). res >>= λ s₃.
                  unpack_hash (unpack_one of_integer f) (length s.tables) (length s₃.rest + 1)
                    (record s₃ { depth = s₃.depth - 1 })
                  >>= λ s₄. ok (table (length s.tables), record s₄ { stack = s.stack }))
                a.done
            ∙ ap
                (λ (res : Result Reader).
                  res >>= λ s₄. ok (table (length s.tables), record s₄ { stack = s.stack }))
                b.done;
        tables = b.tables;
      }
