-- ===== src/Seri/Encode.antt =====
-- The bytes that stand for a value that is no table, and that `pack_one` writes them.
use service_lua.Base.{
  ℕ, suc, ◌+◌, ◌*◌, ◌^◌, ◌<◌, ◌≡◌, refl, ap, ◌∙◌, true, false, List, [], ◌∷◌, ◌++◌, if◌then◌else◌,
  ltb, ltb→lt, lt→ltb, arith, length, append_assoc, Bool-cases, inl, inr,
}
use service_lua.Seri.Bytes.{le_bytes}
use service_lua.Seri.Block.{WriteBlock, wb_push}
use service_lua.Seri.Block.Append.{bytes, IsChain, wb_push_lem}
use service_lua.Seri.Value.{
  Value, Heap, nil, boolean, number, string, light_userdata, c_function, closure, table, other,
  combine_type,
}
use service_lua.Seri.Scalar.{wb_nil, wb_boolean, wb_real, wb_pointer, wb_string, push_tag}
use service_lua.Seri.Result.{ok}
use service_lua.Seri.Refs.{Packer}
use service_lua.Seri.Pack.{pack_one}

-- A value without parts, of the sizes that the machine has.
abbrev pub IsPlain : Value → Type 0
IsPlain (number n) = n < 2 ^ 64
IsPlain (string str) = length str < 2 ^ 31
IsPlain (light_userdata p) = p < 2 ^ 64
IsPlain (c_function p) = p < 2 ^ 64
IsPlain closure = ⊥
IsPlain (table t) = ⊥
IsPlain other = ⊥
IsPlain _ = Unit {0}

unfoldable pub encode_string : List ℕ → List ℕ
encode_string str =
    if ltb (length str) 32
    then (3 + length str * 8) ∷ str
    else if ltb (length str) 0x10000
    then 20 ∷ (le_bytes 2 (length str) ++ str)
    else 36 ∷ (le_bytes 4 (length str) ++ str)

-- The stream format: a tag of three bits of type and five of cookie, and what follows it.
unfoldable pub encode : Value → List ℕ
unfolding encode_string
encode nil = 0 ∷ []
encode (boolean false) = 8 ∷ []
encode (boolean true) = 16 ∷ []
encode (number n) = 65 ∷ le_bytes 8 n
encode (string str) = encode_string str
encode (light_userdata p) = 2 ∷ le_bytes 8 p
encode (c_function p) = 10 ∷ le_bytes 8 p
encode _ = []

-- From `wb` on, `s` was written.
abbrev pub Wrote : WriteBlock → List ℕ → WriteBlock → Type 0
Wrote wb s wb' = IsChain wb' × (bytes wb' ≡ bytes wb ++ s)

pub Wrote-push :
    (wb wb' : WriteBlock) (s t : List ℕ) → Wrote wb s wb' → Wrote wb (s ++ t) (wb_push wb' t)
Wrote-push wb wb' s t w =
    let (chain, same) = wb_push_lem wb' t w.0 in
    (chain, same ∙ ap (λ xs. xs ++ t) w.1 ∙ append_assoc (bytes wb) s t)

pub push-Wrote : (wb : WriteBlock) (s : List ℕ) → IsChain wb → Wrote wb s (wb_push wb s)
push-Wrote wb s c = wb_push_lem wb s c

short-Wrote :
    (wb : WriteBlock) (str : List ℕ)
    → IsChain wb
    → length str < 32
    → let tagged = push_tag wb 3 (length str) in
      Wrote wb
        ((3 + length str * 8) ∷ str)
        (if ltb 0 (length str) then wb_push tagged str else tagged)
short-Wrote wb [] c lt = push-Wrote wb (3 ∷ []) c
short-Wrote wb (x ∷ xs) c lt =
    let n = length (x ∷ xs) in
    let e : combine_type 3 n ≡ 3 + n * 8 = omega arith in
    let some_bytes : ltb 0 n ≡ true = lt→ltb _ _ (omega arith) in
    rw (e, some_bytes)
      (Wrote-push wb _ ((3 + n * 8) ∷ []) (x ∷ xs) (push-Wrote wb ((3 + n * 8) ∷ []) c))

wb_string-Wrote :
    (wb : WriteBlock) (str : List ℕ) → IsChain wb → Wrote wb (encode_string str) (wb_string wb str)
unfolding wb_string encode_string
wb_string-Wrote wb str c = elim (Bool-cases (ltb (length str) 32)) [
  | inl short ↦ rw short (short-Wrote wb str c (ltb→lt _ _ short))
  | inr long ↦ elim (Bool-cases (ltb (length str) 0x10000)) [
    | inl word ↦
        rw (long, word)
          (Wrote-push wb _ (20 ∷ le_bytes 2 (length str)) str
            (Wrote-push wb _ (20 ∷ []) (le_bytes 2 (length str)) (push-Wrote wb (20 ∷ []) c)))
    | inr dword ↦
        rw (long, dword)
          (Wrote-push wb _ (36 ∷ le_bytes 4 (length str)) str
            (Wrote-push wb _ (36 ∷ []) (le_bytes 4 (length str)) (push-Wrote wb (36 ∷ []) c)))
  ]
]

-- `pack_one` appends the bytes of a plain value, and changes nothing else.
pub pack_one-plain :
    (f : ℕ) (heap : Heap) (v : Value) (s : Packer)
    → IsPlain v
    → IsChain s.wb
    → (wb' : WriteBlock) × (pack_one (suc f) heap v s ≡ ok (record s { wb = wb' }))
      × Wrote s.wb (encode v) wb'
unfolding pack_one encode wb_nil wb_boolean wb_real wb_pointer
pack_one-plain f heap nil s p c = (_, refl, push-Wrote s.wb _ c)
pack_one-plain f heap (boolean true) s p c = (_, refl, push-Wrote s.wb _ c)
pack_one-plain f heap (boolean false) s p c = (_, refl, push-Wrote s.wb _ c)
pack_one-plain f heap (number n) s p c =
    (_, refl, Wrote-push s.wb _ (65 ∷ []) (le_bytes 8 n) (push-Wrote s.wb (65 ∷ []) c))
pack_one-plain f heap (string str) s p c = (_, refl, wb_string-Wrote s.wb str c)
pack_one-plain f heap (light_userdata n) s p c =
    (_, refl, Wrote-push s.wb _ (2 ∷ []) (le_bytes 8 n) (push-Wrote s.wb (2 ∷ []) c))
pack_one-plain f heap (c_function n) s p c =
    (_, refl, Wrote-push s.wb _ (10 ∷ []) (le_bytes 8 n) (push-Wrote s.wb (10 ∷ []) c))
pack_one-plain f heap closure s p c = absurd p
pack_one-plain f heap (table t) s p c = absurd p
pack_one-plain f heap other s p c = absurd p
