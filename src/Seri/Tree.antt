-- ===== src/Seri/Tree.antt =====
-- Values with parts, where no table stands at two places: their stream, and what the reader makes of it.
pub mod Index
pub mod Marked
pub mod Pack
pub mod Packed
pub mod Table
pub mod Read
pub mod RoundTrip
mod Tests
pub mod Unmet
pub mod Unpack
use service_lua.Base.{
  ℕ, zero, suc, ◌+◌, ◌-◌, ◌*◌, ◌/◌, ◌%◌, ◌^◌, ◌≤◌, ◌<◌, ◌≡◌, ◌⊎◌, false, none, List, [], ◌∷◌, ◌++◌,
  if◌then◌else◌, leb, pos, length,
}
use service_lua.Seri.Value.{Value, Heap, LuaTable, table, number, extend_number}
use service_lua.Seri.Stream.{Slot, index, key, is_nil, is_nan}
use service_lua.Seri.Encode.{IsPlain, encode}
use service_lua.Seri.Integer.{encode_integer}

-- A value without parts, or a table at an address: its array, and its other entries, whose keys are without
-- parts.
mutual
  pub data Tree : Type 0 where
    leaf : Value → Tree
    node : ℕ → Items → Entries → Tree

  pub data Items : Type 0 where
    no_items : Items
    item : Tree → Items → Items

  pub data Entries : Type 0 where
    no_entries : Entries
    entry : Value → Tree → Entries → Entries

abbrev pub value_of : Tree → Value
value_of (leaf v) = v
value_of (node a xs es) = table a

abbrev pub count : Items → ℕ
count no_items = 0
count (item t xs) = suc (count xs)

-- How many tables and values there are: a bound of the depth
abbrev mutual
  pub size : Tree → ℕ
  size (leaf v) = 1
  size (node a xs es) = suc (size_items xs + size_entries es)

  pub size_items : Items → ℕ
  size_items no_items = 0
  size_items (item t xs) = size t + size_items xs

  pub size_entries : Entries → ℕ
  size_entries no_entries = 0
  size_entries (entry k t es) = suc (size t + size_entries es)

-- The address of one of the tables
abbrev mutual
  pub In : ℕ → Tree → Type 0
  In a (leaf v) = ⊥
  In a (node b xs es) = (a ≡ b) ⊎ (InItems a xs ⊎ InEntries a es)

  pub InItems : ℕ → Items → Type 0
  InItems a no_items = ⊥
  InItems a (item t xs) = In a t ⊎ InItems a xs

  pub InEntries : ℕ → Entries → Type 0
  InEntries a no_entries = ⊥
  InEntries a (entry k t es) = In a t ⊎ InEntries a es

-- No table stands at two places.
abbrev mutual
  pub IsTree : Tree → Type 0
  IsTree (leaf v) = Unit
  IsTree (node b xs es) =
      (InItems b xs → ⊥)
      × (InEntries b es → ⊥)
      × ((a : ℕ) → InItems a xs → InEntries a es → ⊥)
      × AreTrees xs
      × AreEntries es

  pub AreTrees : Items → Type 0
  AreTrees no_items = Unit
  AreTrees (item t xs) = ((a : ℕ) → In a t → InItems a xs → ⊥) × IsTree t × AreTrees xs

  pub AreEntries : Entries → Type 0
  AreEntries no_entries = Unit
  AreEntries (entry k t es) = ((a : ℕ) → In a t → InEntries a es → ⊥) × IsTree t × AreEntries es

-- The bits are those of the double that is the number `n`, one from 1 to 2 ^ 53 - 1: by IEEE 754, with the
-- exponent `e` and the sign 0, the significand of 53 bits is `n` shifted to the left.
abbrev pub DoubleOf : ℕ → ℕ → Type 0
DoubleOf n bits =
    (e : ℕ) × (e ≤ 52) × (bits / 2 ^ 52 ≡ 1023 + e) × (2 ^ 52 + bits % 2 ^ 52 ≡ n * 2 ^ (52 - e))

-- A key of the array: a number from 1 to its length
abbrev pub IsIndex : ℕ → Value → Type 0
IsIndex length k =
    (n : ℕ) × (bits : ℕ) × (k ≡ number bits) × DoubleOf n bits × (1 ≤ n) × (n ≤ length)

-- The entries whose keys are not in the array, in their order
abbrev pub Apart : ℕ → List (Value × Value) → List (Value × Value) → Type 0
Apart length [] others = others ≡ []
Apart length ((k, v) ∷ rest) others =
    (IsIndex length k × Apart length rest others)
    ⊎ ((IsIndex length k → ⊥)
        × ((tail : List (Value × Value)) × (others ≡ (k, v) ∷ tail) × Apart length rest tail))

-- What the Lua API shows of the sender's heap is the tree: its items are at the indices of the array, and
-- its entries are those of `lua_next` with other keys. No table has a `__pairs` metamethod.
abbrev mutual
  pub Shows : Heap → Tree → Type 0
  Shows heap (leaf v) = IsPlain v
  Shows heap (node a xs es) =
      ((heap a).pairs ≡ none)
      × ((heap a).objlen ≡ count xs)
      × (count xs < 2 ^ 31)
      × ShowsItems heap (heap a).rawgeti 1 xs
      × ((others : List (Value × Value)) × Apart (count xs) (heap a).entries others
          × ShowsEntries heap others es)

  pub ShowsItems : Heap → (ℕ → Value) → ℕ → Items → Type 0
  ShowsItems heap get i no_items = Unit
  ShowsItems heap get i (item t xs) =
      (get i ≡ value_of t) × Shows heap t × ShowsItems heap get (i + 1) xs

  pub ShowsEntries : Heap → List (Value × Value) → Entries → Type 0
  ShowsEntries heap kvs no_entries = kvs ≡ []
  ShowsEntries heap kvs (entry k t es) =
      (rest : List (Value × Value)) × (kvs ≡ (k, value_of t) ∷ rest)
      × IsPlain k
      × (is_nil k ≡ false)
      × (is_nan k ≡ false)
      × Shows heap t
      × ShowsEntries heap rest es

-- The tag of a table, and the length of its array
unfoldable pub encode_size : ℕ → List ℕ
encode_size n = if leb extend_number n then 253 ∷ encode_integer (pos n) else (5 + n * 8) ∷ []

-- The stream of a tree: the tag, the array, the entries, each key in front of its value, and a nil.
unfoldable mutual
  unfolding encode_size

  pub encode_tree : Tree → List ℕ
  encode_tree (leaf v) = encode v
  encode_tree (node a xs es) = encode_size (count xs) ++ (encode_items xs ++ encode_entries es)

  pub encode_items : Items → List ℕ
  encode_items no_items = []
  encode_items (item t xs) = encode_tree t ++ encode_items xs

  pub encode_entries : Entries → List ℕ
  encode_entries no_entries = 0 ∷ []
  encode_entries (entry k t es) = encode k ++ (encode_tree t ++ encode_entries es)

-- The copy that the receiver gets, if its next table has number `n`: the value, and the tables, each with
-- its stores. A table comes in front of those that stand in it.
unfoldable mutual
  pub copy : ℕ → Tree → Value × List (List (Slot × Value))
  copy n (leaf v) = (v, [])
  copy n (node a xs es) =
      let (array, inner) = copy_items (n + 1) 1 xs in
      let (fields, inner') = copy_entries (n + 1 + length inner) es in
      (table n, (array ++ fields) ∷ (inner ++ inner'))

  pub copy_items : ℕ → ℕ → Items → List (Slot × Value) × List (List (Slot × Value))
  copy_items n i no_items = ([], [])
  copy_items n i (item t xs) =
      let (v, inner) = copy n t in
      let (stores, inner') = copy_items (n + length inner) (i + 1) xs in
      ((index i, v) ∷ stores, inner ++ inner')

  pub copy_entries : ℕ → Entries → List (Slot × Value) × List (List (Slot × Value))
  copy_entries n no_entries = ([], [])
  copy_entries n (entry k t es) =
      let (v, inner) = copy n t in
      let (stores, inner') = copy_entries (n + length inner) es in
      ((key k, v) ∷ stores, inner ++ inner')
