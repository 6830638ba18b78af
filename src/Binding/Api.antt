-- ===== src/Binding/Api.antt =====
-- What Lua's C interface tells of an argument, and how a C function that Lua calls ends.
use service_lua.Base.{
  ◌≡◌, ◌⊎◌, inl, inr, refl, subst, ℕ, Bool, true, false, ◌||◌, Option, none, some, List,
  if◌then◌else◌, ℤ,
}

-- The answers of Lua for one argument: `lua_isnone`, `lua_isnil`, whether it is a light userdata, a boolean or
-- a table, what `luaL_checkinteger` and `luaL_checkstring` return, none if they raise an error, and what
-- `lua_touserdata` and `lua_toboolean` return.
pub record Arg : Type 0 where
  pub isnone : Bool
  pub isnil : Bool
  pub islight : Bool
  pub isboolean : Bool
  pub istable : Bool
  pub integer : Option ℤ
  pub string : Option (List ℕ)
  pub userdata : ℕ
  pub boolean : Bool

abbrev pub isnoneornil : Arg → Bool
isnoneornil a = a.isnone || a.isnil

-- The errors that the functions raise: an argument of the wrong type, by its number, and their own.
pub data LuaError : Type 0 where
  bad_argument : ℕ → LuaError
  not_uint32 : ℕ → LuaError
  negative_size : LuaError
  bad_mailbox_size : LuaError
  no_pool : LuaError
  not_created : LuaError
  start_failed : ℕ → LuaError
  not_stopped : ℕ → LuaError
  not_joined : ℕ → LuaError
  bad_level : ℕ → LuaError
  bad_format : ℕ → LuaError

-- How a call ends: an error is raised, or it returns.
pub data Return {ℓ} (R : Type ℓ) : Type ℓ where
  throws : LuaError → Return R
  returns : R → Return R

infixl 5 ◌>>=◌
abbrev pub ◌>>=◌ {ℓ κ} : {R : Type ℓ} {S : Type κ} → Return R → (R → Return S) → Return S
returns r >>= k = k r
throws e >>= k = throws e

-- `luaL_checkinteger`, `luaL_checkstring`, and `luaL_checktype` of a light userdata and of a boolean, for the
-- argument with a number
abbrev pub check_integer : ℕ → Arg → Return ℤ
check_integer i a = elim a.integer [ none ↦ throws (bad_argument i) | some v ↦ returns v ]

abbrev pub check_string : ℕ → Arg → Return (List ℕ)
check_string i a = elim a.string [ none ↦ throws (bad_argument i) | some s ↦ returns s ]

abbrev pub check_light : ℕ → Arg → Return ℕ
check_light i a = if a.islight then returns a.userdata else throws (bad_argument i)

abbrev pub check_boolean : ℕ → Arg → Return Bool
check_boolean i a = if a.isboolean then returns a.boolean else throws (bad_argument i)

-- What Lua says of the values that the functions push.
abbrev pub nil_arg : Arg
nil_arg = record {
  isnone = false;
  isnil = true;
  islight = false;
  isboolean = false;
  istable = false;
  integer = none;
  string = none;
  userdata = 0;
  boolean = false;
}

abbrev pub integer_arg : ℤ → Arg
integer_arg v = record nil_arg { isnil = false; integer = some v; boolean = true }

abbrev pub light_arg : ℕ → Arg
light_arg p = record nil_arg { isnil = false; islight = true; userdata = p; boolean = true }

pub Return-cases {ℓ} :
    {R : Type ℓ} (r : Return R) → ((e : LuaError) × (r ≡ throws e)) ⊎ ((a : R) × (r ≡ returns a))
Return-cases (throws e) = inl (e, refl)
Return-cases (returns a) = inr (a, refl)

-- What is returned, if anything is, satisfies a predicate.
abbrev pub Returns {ℓ κ} : {R : Type ℓ} → (R → Type κ) → Return R → Type κ
Returns P (throws e) = Unit
Returns P (returns a) = P a

pub Returns-get {ℓ κ} :
    {R : Type ℓ} (P : R → Type κ) {r : Return R} {a : R} → Returns P r → r ≡ returns a → P a
Returns-get P has e = subst (Returns P) e has
