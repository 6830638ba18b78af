-- ===== src/Seri/Block.antt =====
-- `struct write_block` of src/lua-seri.c: the output as a chain of blocks of 128 bytes. A block is the
-- list of the bytes written to it. The C `int`s `len` and `ptr` are numbers here: a stream of 2 GiB or
-- more, where `len` overflows, is outside the model.
pub mod Append
use service_lua.Base.{
  ℕ, zero, suc, ◌+◌, ◌-◌, ◌*◌, ◌/◌, ◌%◌, Bool, true, false, Option, none, some, List, [], ◌∷◌, ◌++◌,
  if◌then◌else◌, ◌==◌, leb, ltb, length, take, drop, set, get_or,
}
use service_lua.Seri.Bytes.{le_bytes}

-- `BLOCK_SIZE`
abbrev pub block_size : ℕ
block_size = 128

-- `before` are the full blocks from `head` on, `current` is the last block.
pub record WriteBlock : Type 0 where
  pub before : List (List ℕ)
  pub current : List ℕ
  pub len : ℕ
  pub ptr : ℕ

-- `wb_init`, over the block on the stack
unfoldable pub wb_init : WriteBlock
wb_init = record { before = []; current = []; len = 0; ptr = 0 }

-- `b->current = b->current->next = blk_alloc(); b->ptr = 0;`
unfoldable pub next_block : WriteBlock → WriteBlock
next_block b = record b { before = b.before ++ (b.current ∷ []); current = []; ptr = 0 }

-- `wb_push` from the test behind `_again` on
unfoldable pub push_rest : ℕ → WriteBlock → List ℕ → WriteBlock
unfolding next_block
push_rest zero b buffer = b
push_rest (suc fuel) b buffer =
    let copy = block_size - b.ptr in
    let again =
      push_rest fuel
        (next_block (record b { current = b.current ++ take copy buffer; len = b.len + copy }))
        (drop copy buffer) in
    if leb (b.ptr + length buffer) block_size
    then record b {
      current = b.current ++ buffer;
      ptr = b.ptr + length buffer;
      len = b.len + length buffer;
    }
    else again

-- Each round but the last copies a byte at least.
unfoldable pub wb_push : WriteBlock → List ℕ → WriteBlock
wb_push b buffer =
    push_rest (length buffer + 1) (if b.ptr == block_size then next_block b else b) buffer

-- A `uint8_t *` into the chain: the number of the block, and the place in it.
abbrev pub Address : Type 0
Address = ℕ × ℕ

unfoldable pub wb_address : WriteBlock → Address × WriteBlock
wb_address b =
    let b' = if b.ptr == block_size then next_block b else b in ((length b'.before, b'.ptr), b')

-- `*address = f(*address)`
unfoldable pub poke : WriteBlock → Address → (ℕ → ℕ) → WriteBlock
poke b (i, o) f =
    if ltb i (length b.before)
    then record b {
      before =
          set b.before i (set (get_or b.before i []) o (f (get_or (get_or b.before i []) o 0)));
    }
    else record b { current = set b.current o (f (get_or b.current o 0)) }

unfoldable pub peek : WriteBlock → Address → ℕ
peek b (i, o) =
    if ltb i (length b.before) then get_or (get_or b.before i []) o 0 else get_or b.current o 0

-- `wb_free`: the blocks behind the first go, and the fields are cleared.
unfoldable pub wb_free : WriteBlock → WriteBlock
wb_free b = record { before = []; current = []; len = 0; ptr = 0 }

-- The loop of `seri` that copies `len` bytes out of the blocks; `none` is a step past the last block.
unfoldable pub copy_blocks : List (List ℕ) → ℕ → Option (List ℕ)
copy_blocks [] len = if len == 0 then some [] else none
copy_blocks (block ∷ blocks) len =
    let rest = copy_blocks blocks (len - block_size) in
    if len == 0
    then some []
    else if leb block_size len
    then elim rest [ none ↦ none | some bytes ↦ some (block ++ bytes) ]
    else some (take len block)

-- `seri`: the length in four bytes, and the bytes.
unfoldable pub seri : WriteBlock → Option (List ℕ)
seri b = elim (copy_blocks (b.before ++ (b.current ∷ [])) b.len) [
  | none ↦ none
  | some bytes ↦ some (le_bytes 4 b.len ++ bytes)
]
