-- ===== src/Seri/Tree/Unpack.antt =====
-- The reader in a table: steps over its array and its entries.
use service_lua.Base.{
  ℕ, suc, ◌+◌, ◌-◌, ◌≡◌, refl, ap, ap₂, ◌∙◌, true, false, List, [], ◌∷◌, ◌++◌, length, set-append,
  get_or-append, append_assoc, ℤ,
}
use service_lua.Seri.Value.{Value}
use service_lua.Seri.Result.{Result, ok, raised, nan_index, ◌>>=◌}
use service_lua.Seri.Stream.{Slot, Reader, index, key, is_nil, is_nan, raw_set}
use service_lua.Seri.Encode.{IsPlain, encode}
use service_lua.Seri.Decode.{at, unpack_one-encode}
use service_lua.Seri.Unpack.{unpack_one, unpack_array, unpack_hash}

abbrev pub Table : Type 0
Table = List (Slot × Value)

-- A store into the table at the end of `pre`
raw_set-append :
    (pre : List Table) (x : Table) (post : List Table) (k : Slot) (v : Value) (s : Reader)
    → s.tables ≡ pre ++ (x ∷ post)
    → (raw_set (length pre) k v s).tables ≡ pre ++ ((x ++ ((k, v) ∷ [])) ∷ post)
unfolding raw_set
raw_set-append pre x post k v s e =
    rw (e, get_or-append pre x [] post, set-append pre x (x ++ ((k, v) ∷ [])) post)

-- The reader gave a value, made the tables `new`, and left `r` of the stream.
pub record IsRead (s : Reader) (made : Value × List Table) (r : List ℕ)
    (res : Result (Value × Reader)) : Type 0 where
  pub after : Reader
  pub done : res ≡ ok (made.0, at after r)
  pub tables : after.tables ≡ s.tables ++ made.1

-- The reader put the stores into the table behind `pre`, made more tables, and left `r` of the stream.
pub record IsFilled (pre : List Table) (x : Table) (post : List Table) (made : Table × List Table)
    (r : List ℕ) (res : Result Reader) : Type 0 where
  pub after : Reader
  pub done : res ≡ ok (at after r)
  pub tables : after.tables ≡ pre ++ ((x ++ made.0) ∷ (post ++ made.1))

module _ (of_integer : ℤ → ℕ) where
  module _ (f : ℕ) (pre : List Table) (x : Table) (post : List Table) (s : Reader)
      (bs cs r : List ℕ) (made : Value × List Table) (rest : Table × List Table)
      (here : s.tables ≡ pre ++ (x ∷ post)) where
    -- The tables behind the store of a value that was read
    stored-tables :
        (k : Slot) (after : Reader)
        → after.tables ≡ s.tables ++ made.1
        → (raw_set (length pre) k made.0 after).tables
          ≡ pre ++ ((x ++ ((k, made.0) ∷ [])) ∷ (post ++ made.1))
    stored-tables k after e =
        raw_set-append pre x (post ++ made.1) k made.0 after
          (e ∙ ap (λ ts. ts ++ made.1) here ∙ append_assoc pre (x ∷ post) made.1)

    -- An element of the array, and the rest of it
    pub item_step :
        (i m : ℕ)
        → IsRead s made (cs ++ r) (unpack_one of_integer f (at s (bs ++ (cs ++ r))))
        → ((s' : Reader)
            → s'.tables ≡ pre ++ ((x ++ ((index i, made.0) ∷ [])) ∷ (post ++ made.1))
            → IsFilled pre
                (x ++ ((index i, made.0) ∷ []))
                (post ++ made.1)
                rest
                r
                (unpack_array (unpack_one of_integer f) (length pre) (i + 1) m (at s' (cs ++ r))))
        → IsFilled pre x post
            ((index i, made.0) ∷ rest.0, made.1 ++ rest.1)
            r
            (unpack_array (unpack_one of_integer f) (length pre) i (suc m) (at s ((bs ++ cs) ++ r)))
    unfolding unpack_array raw_set
    item_step i m q h =
        let p =
          h (raw_set (length pre) (index i) made.0 q.after)
            (stored-tables (index i) q.after q.tables) in
        record {
          after = p.after;
          done =
              ap (λ b. unpack_array (unpack_one of_integer f) (length pre) i (suc m) (at s b))
                (append_assoc bs cs r)
              ∙ ap
                  (λ (res : Result (Value × Reader)). res >>= λ (v, s').
                    unpack_array (unpack_one of_integer f) (length pre) (i + 1) m
                      (raw_set (length pre) (index i) v s'))
                  q.done
              ∙ p.done;
          tables =
              p.tables
              ∙ ap₂ (λ y z. pre ++ (y ∷ z)) (append_assoc x ((index i, made.0) ∷ []) rest.0)
                  (append_assoc post made.1 rest.1);
        }

    -- An entry, and the rest of them
    pub entry_step :
        (k : Value) (g : ℕ)
        → IsPlain k
        → is_nil k ≡ false
        → is_nan k ≡ false
        → ((s' : Reader)
            → s'.tables ≡ s.tables
            → IsRead s' made (cs ++ r) (unpack_one of_integer (suc f) (at s' (bs ++ (cs ++ r)))))
        → ((s' : Reader)
            → s'.tables ≡ pre ++ ((x ++ ((key k, made.0) ∷ [])) ∷ (post ++ made.1))
            → IsFilled pre
                (x ++ ((key k, made.0) ∷ []))
                (post ++ made.1)
                rest
                r
                (unpack_hash (unpack_one of_integer (suc f)) (length pre) g (at s' (cs ++ r))))
        → IsFilled pre x post
            ((key k, made.0) ∷ rest.0, made.1 ++ rest.1)
            r
            (unpack_hash
              (unpack_one of_integer (suc f))
              (length pre)
              (suc g)
              (at s ((encode k ++ (bs ++ cs)) ++ r)))
    unfolding unpack_hash raw_set
    entry_step k g plain full number read h =
        let q = read (record s { depth = s.depth + 1; stack = s.stack ++ (k ∷ []) }) refl in
        let p =
          h
            (raw_set (length pre) (key k) made.0
              (record q.after { depth = q.after.depth - 1; stack = s.stack }))
            (stored-tables (key k) (record q.after { depth = q.after.depth - 1; stack = s.stack })
              q.tables) in
        let store_value : Value → List Value → Value → Reader → Result Reader = λ w below v s₂.
          elim (is_nan w) [
            | true ↦ raised nan_index
            | false ↦
                unpack_hash (unpack_one of_integer (suc f)) (length pre) g (
                  raw_set (length pre) (key w) v
                    (record s₂ { depth = s₂.depth - 1; stack = below }))
          ] in
        let unpack_value : Value → Reader → Result Reader = λ w s₁.
          unpack_one of_integer (suc f)
            (record s₁ { depth = s₁.depth + 1; stack = s₁.stack ++ (w ∷ []) })
          >>= λ (v, s₂). store_value w s₁.stack v s₂ in
        let split : (encode k ++ (bs ++ cs)) ++ r ≡ encode k ++ (bs ++ (cs ++ r)) =
          append_assoc (encode k) (bs ++ cs) r ∙ ap (λ b. encode k ++ b) (append_assoc bs cs r) in
        record {
          after = p.after;
          done = rw split (
              ap
                (λ (res : Result (Value × Reader)).
                  res >>= λ (v, s₁). elim (is_nil v) [ true ↦ ok s₁ | false ↦ unpack_value v s₁ ])
                (unpack_one-encode of_integer f s k plain (bs ++ (cs ++ r)))
              ∙ ap
                  (λ b. elim b as (λ _. Result Reader) [
                    | true ↦ ok (at s (bs ++ (cs ++ r)))
                    | false ↦ unpack_value k (at s (bs ++ (cs ++ r)))
                  ])
                  full
              ∙ ap
                  (λ (res : Result (Value × Reader)). res >>= λ (v, s₂). store_value k s.stack v s₂)
                  q.done
              ∙ ap
                  (λ b. elim b as (λ _. Result Reader) [
                    | true ↦ raised nan_index
                    | false ↦ unpack_hash (unpack_one of_integer (suc f)) (length pre) g (
                        raw_set (length pre) (key k) made.0 (record (at q.after (cs ++ r)) {
                          depth = q.after.depth - 1;
                          stack = s.stack;
                        }))
                  ])
                  number
              ∙ p.done);
          tables =
              p.tables
              ∙ ap₂ (λ y z. pre ++ (y ∷ z)) (append_assoc x ((key k, made.0) ∷ []) rest.0)
                  (append_assoc post made.1 rest.1);
        }
