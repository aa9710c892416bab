-- ===== src/Json.antt =====
-- Values of the source's language that come from outside: what `JSON.parse` returns, and numbers.
-- A finite number is a fraction (every double is one), so comparing two and rounding one are exact.
use aio_t_cloud.Base.{
  Text, ℕ, codes, ◌==◌, Bool, true, false, Option, none, some, or_default, if◌then◌else◌,
}
use aio_t_cloud.Number.{Number}

mutual
  pub data Json : Type 0 where
    null : Json
    bool : Bool → Json
    num : Number → Json
    str : Text → Json
    arr : Items → Json
    obj : Fields → Json

  pub data Items : Type 0 where
    nil : Items
    cons : Json → Items → Items

  pub data Fields : Type 0 where
    end : Fields
    field : Text → Json → Fields → Fields

-- `o[k]`; the keys of a parsed object are distinct.
unfoldable pub property : Text → Fields → Option Json
property k end = none
property k (field j v fs) = if j == k then some v else property k fs

-- What the language prints of a number, an array or an object: `String(x)` and `JSON.stringify(x)`;
-- a number that is no double is first rounded to one.
-- No result depends on how it looks.
pub record Printer : Type 0 where
  pub number : Number → Text
  pub compound : Json → Text
  pub stringify : Json → Text
  -- `x.toFixed(digits)`
  pub to_fixed : (digits : ℕ) → Number → Text

-- `String(value)`
abbrev pub to_text : Printer → Json → Text
to_text p null = codes "null"
to_text p (bool true) = codes "true"
to_text p (bool false) = codes "false"
to_text p (num n) = p.number n
to_text p (str s) = s
to_text p (arr xs) = p.compound (arr xs)
to_text p (obj fs) = p.compound (obj fs)

-- `typeof x === 'string' ? x : JSON.stringify(x)`
abbrev pub text_or_json : Printer → Json → Text
text_or_json p (str s) = s
text_or_json p j = p.stringify j

-- `x && typeof x === 'object'`
abbrev pub is_object : Json → Bool
is_object (arr _) = true
is_object (obj _) = true
is_object _ = false

-- `x ?? y` on a value that may be missing or null.
abbrev pub unless_null : Option Json → Json → Json
unless_null (some null) d = d
unless_null v d = or_default v d

abbrev pub string_of : Json → Option Text
string_of (str s) = some s
string_of _ = none

-- `x.k` on any value, where `x` is no null.
abbrev pub member : Text → Json → Option Json
member k (obj fs) = property k fs
member k _ = none
