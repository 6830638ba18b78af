-- ===== src/Binding/Seri/Journey.antt =====
-- Values that are packed, sent as the payload of a message, and unpacked by its receiver.
use service_lua.Base.{
  ℕ, suc, ◌^◌, ◌<◌, ◌≡◌, ◌≢◌, refl, ap, ◌∙◌, Bool, false, List, [], ◌∷◌, if◌then◌else◌, ◌==◌, arith,
  length, ℤ, pos, ap₂,
}
use service_lua.Message.{Message}
use service_lua.Seri.Value.{Value, Heap}
use service_lua.Seri.Result.{ok}
use service_lua.Seri.Stream.{Reader}
use service_lua.Seri.Unpack.{seri_unpack}
use service_lua.Seri.Pack.{seri_pack}
use service_lua.Seri.RoundTrip.{AllPlain, encode_all, seri_unpack-seri_pack}
use service_lua.Binding.Api.{returns, integer_arg, light_arg}
use service_lua.Binding.Message.{compose_payload, results_of}
use service_lua.Binding.Seri.{
  luaseri_pack, unpacked, seri_unpack_, seri_unpackptr, luaseri_unpack, luaseri_unpack_remove,
}

-- The memory once a buffer has been stored
abbrev pub store : (ℕ → List ℕ) → ℕ → List ℕ → ℕ → List ℕ
store memory p buffer q = if q == p then buffer else memory q

module _ (of_integer : ℤ → ℕ) (memory : ℕ → List ℕ) (p : ℕ) (held : p ≢ 0) where
  not_null : (p == 0) ≡ false
  not_null = ground arith

  stored : (buffer : List ℕ) → store memory p buffer p ≡ buffer
  stored buffer = ground arith

  luaseri_pack-ok :
      (f : ℕ) (heap : Heap) (vs : List Value) {buffer : List ℕ} {n : ℕ}
      → seri_pack f heap vs ≡ ok (buffer, n)
      → luaseri_pack f heap vs p ≡ ok (light_arg p, integer_arg (pos n), buffer)
  unfolding luaseri_pack
  luaseri_pack-ok f heap vs packed = rw (luaseri_pack, packed)

  seri_unpack_-ok :
      (mem : ℕ → List ℕ) (vs : List Value) {s : Reader}
      → seri_unpack of_integer (mem p) ≡ ok (vs, s)
      → seri_unpack_ of_integer mem p ≡ ok vs
  unfolding seri_unpack_ unpacked
  seri_unpack_-ok mem vs unpacks = rw (seri_unpack_, not_null, unpacks)

  unpackptr-ok :
      (mem : ℕ → List ℕ) (vs : List Value)
      → seri_unpack_ of_integer mem p ≡ ok vs
      → seri_unpackptr of_integer mem p ≡ (ok vs, p ∷ [])
  unfolding seri_unpackptr
  unpackptr-ok mem vs unpacks = ap₂ (λ r (b : Bool). (r, if b then [] else p ∷ [])) unpacks not_null

  unpack_remove-ok :
      (mem : ℕ → List ℕ) (vs : List Value)
      → seri_unpack_ of_integer mem p ≡ ok vs
      → luaseri_unpack_remove of_integer mem (light_arg p) ≡ (ok vs, p ∷ [])
  unfolding luaseri_unpack_remove
  unpack_remove-ok mem vs unpacks =
      ap (λ (b : Bool). if b then (ok [], []) else seri_unpackptr of_integer mem p) not_null
      ∙ unpackptr-ok mem vs unpacks

  unpack-ok :
      (mem : ℕ → List ℕ) (vs : List Value)
      → seri_unpack_ of_integer mem p ≡ ok vs
      → luaseri_unpack of_integer mem (light_arg p) ≡ ok vs
  unfolding luaseri_unpack
  unpack-ok mem vs unpacks = unpacks

  received : (m : Message) → m.msg ≡ p → (results_of m).msg ≡ light_arg p
  received m here = rw (here, not_null)

  payload-ok : (n : ℕ) → compose_payload (light_arg p) (integer_arg (pos n)) ≡ returns (p, n)
  unfolding compose_payload
  payload-ok n = refl

  -- Values without parts, whose stream is shorter than 2 GiB, packed into a buffer that malloc gives:
  -- `_send_message` takes the two results as the payload of a message and its size; given the payload that
  -- `_recv_message` returns for a message with it, `unpack` returns the same values, and `unpack_remove`
  -- does too and frees the buffer once.
  pub luaseri_unpack_remove-luaseri_pack :
      (f : ℕ) (heap : Heap) (vs : List Value) (m : Message)
      → m.msg ≡ p
      → AllPlain vs
      → length (encode_all vs) < 2 ^ 31
      → (buffer : List ℕ) × (luaseri_pack (suc f) heap vs p
          ≡ ok (light_arg p, integer_arg (pos (length buffer)), buffer))
        × (compose_payload (light_arg p) (integer_arg (pos (length buffer)))
            ≡ returns (p, length buffer))
        × (luaseri_unpack of_integer (store memory p buffer) (results_of m).msg ≡ ok vs)
        × (luaseri_unpack_remove of_integer (store memory p buffer) (results_of m).msg
            ≡ (ok vs, p ∷ []))
  luaseri_unpack_remove-luaseri_pack f heap vs m here plain small =
      let (buffer, packed, unpacks) = seri_unpack-seri_pack of_integer f heap vs plain small in
      let mem = store memory p buffer in
      let values = seri_unpack_-ok mem vs (ap (seri_unpack of_integer) (stored buffer) ∙ unpacks) in
      (
        buffer,
        luaseri_pack-ok (suc f) heap vs packed,
        payload-ok (length buffer),
        ap (luaseri_unpack of_integer mem) (received m here) ∙ unpack-ok mem vs values,
        ap (luaseri_unpack_remove of_integer mem) (received m here)
            ∙ unpack_remove-ok mem vs values,
      )
