-- ===== src/Proto/Encoding.antt =====
-- Package encoding/json as the control channel uses it: values, and the decoding of structs.
-- A number that is no integer literal is `frac`. Texts are taken to be valid UTF-8, which
-- json.Marshal keeps as they are. Keys match without regard to the case of ASCII letters.
use nnel.Base.{
  ℕ, ◌+◌, Bool, ◌&&◌, Option, none, some, map, ℤ, is_int64, Text, text_eqb, leb, if◌then◌else◌,
}

mutual
  pub data Json : Type 0 where
    null : Json
    bool : Bool → Json
    num : ℤ → Json
    frac : Json
    str : Text → Json
    arr : Items → Json
    obj : Fields → Json

  pub data Items : Type 0 where
    nil : Items
    cons : Json → Items → Items

  pub data Fields : Type 0 where
    end : Fields
    field : Text → Json → Fields → Fields

infixl 5 ◌>>=◌
abbrev pub ◌>>=◌ {ℓ κ} : {R : Type ℓ} {S : Type κ} → Option R → (R → Option S) → Option S
none >>= rest = none
some r >>= rest = rest r

abbrev fold_case : ℕ → ℕ
fold_case c = if leb b'A' c && leb c b'Z' then c + 32 else c

abbrev pub is_key : Text → Text → Bool
is_key tag key = text_eqb (map fold_case tag) (map fold_case key)

-- One field of a struct. `null` leaves it as it is, and a value of another type is an error.
module _ {R : Type 0} where
  abbrev pub set_text : (Text → R) → Json → R → Option R
  set_text put null r = some r
  set_text put (str s) r = some (put s)
  set_text put _ r = none

  abbrev pub set_int : (ℤ → R) → Json → R → Option R
  set_int put null r = some r
  set_int put (num n) r = if is_int64 n then some (put n) else none
  set_int put _ r = none

  abbrev pub set_bool : (Bool → R) → Json → R → Option R
  set_bool put null r = some r
  set_bool put (bool b) r = some (put b)
  set_bool put _ r = none

  -- The keys in their order; a later one overwrites an earlier.
  abbrev pub set_fields : (Text → Json → R → Option R) → Fields → R → Option R
  set_fields put end r = some r
  set_fields put (field k v fs) r = put k v r >>= set_fields put fs

  -- json.Unmarshal into a struct that holds `zero`.
  abbrev pub unmarshal : (Text → Json → R → Option R) → R → Json → Option R
  unmarshal put zero (obj fs) = set_fields put fs zero
  unmarshal put zero null = some zero
  unmarshal put zero _ = none
