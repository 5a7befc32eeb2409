-- ===== src/Json.antt =====
-- The JSON values that the program stores in its JSONB columns and passes between its parts, and
-- what encoding/json does with them.
use painkiller.Prelude.{
  ℕ, ℤ, ◌-◌, Bool, ◌&&◌, Option, none, some, map, Text, text_eq, leb, ◌==◌, if◌then◌else◌,
}

mutual
  pub data Json : Type 0 where
    null : Json
    str : Text → Json
    -- a number that fits `int64`
    num : ℤ → Json
    -- a boolean, or another number
    other : Json
    arr : Items → Json
    obj : Fields → Json

  pub data Items : Type 0 where
    nil : Items
    cons : Json → Items → Items

  pub data Fields : Type 0 where
    end : Fields
    field : Text → Json → Fields → Fields

-- encoding/json's foldName, as far as it can meet an ASCII name.
abbrev fold_rune : ℕ → ℕ
fold_rune c =
    if leb b'a' c && leb c b'z'
    then c - 32
    else if c == 0x212a
    then b'K'
    else if c == 0x17f
    then b'S'
    else c

-- Does an object's key name the field with this tag?
abbrev pub names : Text → Text → Bool
names key tag = text_eq (map fold_rune key) (map fold_rune tag)

-- A string, or null, which leaves the field as it is; anything else is an error.
abbrev pub decode_text : Text → Json → Option Text
decode_text old (str t) = some t
decode_text old null = some old
decode_text old _ = none

-- An integer, or null; anything else is an error.
abbrev pub decode_int : ℤ → Json → Option ℤ
decode_int old (num n) = some n
decode_int old null = some old
decode_int old _ = none

module _ {A : Type 0} (member : Text → Json → A → Option A) where
  unfoldable pub decode_members : Fields → A → Option A
  decode_members end a = some a
  decode_members (field k j fs) a = elim (member k j a) [
    | none ↦ none
    | some b ↦ decode_members fs b
  ]

  -- `json.Unmarshal` of a value into a struct, whose members `member` reads.
  unfoldable pub decode_struct : A → Json → Option A
  unfolding decode_members
  decode_struct a (obj fs) = decode_members fs a
  decode_struct a null = some a
  decode_struct a _ = none
