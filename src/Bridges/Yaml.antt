-- ===== src/Bridges/Yaml.antt =====
-- The values that `yaml.safe_load` builds, and Python's operations on its dictionaries. A scalar that
-- is no text (a number, a Boolean, a date) is known by its truth value and by what `str` prints.
use cozy_nm.Base.{
  ◌≡◌, refl, ap, String, ◌==◌, eq_iff, eq_refl, Bool, true, false, not, ◌||◌, Option, none, some,
  arith, if◌then◌else◌, is_empty,
}

pub data Scalar : Type 0 where
  null : Scalar
  text : String → Scalar
  other : (truth : Bool) → (printed : String) → Scalar

mutual
  pub data Value : Type 0 where
    scalar : Scalar → Value
    sequence : Items → Value
    mapping : Fields → Value

  pub data Items : Type 0 where
    nil : Items
    cons : Value → Items → Items

  pub data Fields : Type 0 where
    end : Fields
    field : Scalar → Value → Fields → Fields

-- `key == name` for a text `name`
unfoldable pub key_is : String → Scalar → Bool
key_is name null = false
key_is name (text s) = s == name
key_is name (other t p) = false

-- `str(key)`
unfoldable pub key_text : Scalar → String
key_text null = "None"
key_text (text s) = s
key_text (other t p) = p

-- `d.get(name)`, with None for a missing key
unfoldable pub lookup : String → Fields → Option Value
lookup name end = none
lookup name (field k v rest) = if key_is name k then some v else lookup name rest

-- `name in d`
unfoldable pub has_key : String → Fields → Bool
has_key name end = false
has_key name (field k v rest) = key_is name k || has_key name rest

-- `d[name] = value`
unfoldable pub put : String → Value → Fields → Fields
put name value end = field (text name) value end
put name value (field k v rest) =
    if key_is name k then field k value rest else field k v (put name value rest)

-- `del d[name]`; a dictionary holds a key once
unfoldable pub remove : String → Fields → Fields
remove name end = end
remove name (field k v rest) =
    let kept = remove name rest in if key_is name k then kept else field k v kept

-- the comprehension of `update`: the entry of `name` is renamed and replaced in its place
unfoldable pub replace : String → String → Value → Fields → Fields
replace name new value end = end
replace name new value (field k v rest) =
    if key_is name k
    then field (text new) value (replace name new value rest)
    else field k v (replace name new value rest)

-- truth of a value, as `or` and `if` ask for it
unfoldable pub is_truthy : Value → Bool
is_truthy (scalar null) = false
is_truthy (scalar (text s)) = not (is_empty s)
is_truthy (scalar (other t p)) = t
is_truthy (sequence nil) = false
is_truthy (sequence (cons v vs)) = true
is_truthy (mapping end) = false
is_truthy (mapping (field k v rest)) = true

-- the key that a name hits
pub key_is-text : (name : String) (k : Scalar) → key_is name k ≡ true → k ≡ text name
unfolding key_is
key_is-text name null h = absurd (cc)
key_is-text name (text s) h = ap text ((eq_iff s name).0 h)
key_is-text name (other t p) h = absurd (cc)

pub key_is_self : (name : String) → key_is name (text name) ≡ true
unfolding key_is
key_is_self name = eq_refl name

pub key_is_other :
    (name other' : String) (k : Scalar)
    → (name == other') ≡ false
    → key_is name k ≡ true
    → key_is other' k ≡ false
unfolding key_is
key_is_other name other' k h e = rw (key_is-text name k e) h

pub has_key-lookup : (name : String) (d : Fields) → has_key name d ≡ false → lookup name d ≡ none
unfolding has_key lookup
has_key-lookup name end h = refl
has_key-lookup name (field k v rest) h = ground (arith, has_key-lookup name rest)

pub lookup-put_self : (name : String) (v : Value) (d : Fields) → lookup name (put name v d) ≡ some v
unfolding lookup put key_is
lookup-put_self name v end = rw (eq_refl name)
lookup-put_self name v (field k w rest) = ground (arith, lookup-put_self name v rest)

pub lookup-put_other :
    (name other' : String) (v : Value) (d : Fields)
    → (name == other') ≡ false
    → lookup other' (put name v d) ≡ lookup other' d
unfolding lookup put
lookup-put_other name other' v end h =
    rw (key_is_other name other' (text name) h (key_is_self name))
lookup-put_other name other' v (field k w rest) h =
    ground (arith, lookup-put_other name other' v rest h, key_is_other name other' k h)

pub remove-put :
    (name : String) (v : Value) (d : Fields)
    → has_key name d ≡ false
    → remove name (put name v d) ≡ d
unfolding remove put has_key
remove-put name v end h = rw (key_is_self name)
remove-put name v (field k w rest) h = ground (arith, remove-put name v rest)
