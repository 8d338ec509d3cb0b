-- ===== src/Json.antt =====
-- The values of JSON that the frontend reads untyped (`unknown`, `Record<string, unknown>`), and
-- what JavaScript does when one of them is read as an object or an array. A value is `none` where it
-- is `undefined`. A number is a count, as the fields are that the frontend reads.
use k8s_platform.Common.{ℕ, zero, suc, String, Bool, true, false, Option, none, some, List, [], ◌∷◌}
use k8s_platform.Common.Dict
use k8s_platform.Text.{truthy}

mutual
  pub data Json : Type 0 where
    null : Json
    bool : Bool → Json
    number : ℕ → Json
    text : String → Json
    array : Items → Json
    object : Fields → Json

  pub data Items : Type 0 where
    nil : Items
    cons : Json → Items → Items

  pub data Fields : Type 0 where
    end : Fields
    field : String → Json → Fields → Fields

abbrev pub items : Items → List Json
items nil = []
items (cons v vs) = v ∷ items vs

abbrev pub entries : Fields → List (String × Json)
entries end = []
entries (field k v fs) = (k, v) ∷ entries fs

-- The result of an expression that may throw a `TypeError`.
pub data Eval {ℓ} (A : Type ℓ) : Type ℓ where
  value : A → Eval A
  type_error : Eval A

infixl 5 ◌>>=◌
abbrev pub ◌>>=◌ {ℓ κ} : {A : Type ℓ} {B : Type κ} → Eval A → (A → Eval B) → Eval B
value a >>= f = f a
type_error >>= f = type_error

-- `v?.[k]`, for a key that only an object has.
abbrev pub prop? : Option Json → String → Option Json
prop? (some (object fs)) k = Dict.get (entries fs) k
prop? _ k = none

-- `v.[k]`
abbrev pub prop : Option Json → String → Eval (Option Json)
prop none k = type_error
prop (some null) k = type_error
prop (some v) k = value (prop? (some v) k)

-- `v` as a condition.
abbrev pub is_true : Option Json → Bool
is_true none = false
is_true (some null) = false
is_true (some (bool b)) = b
is_true (some (number zero)) = false
is_true (some (number (suc n))) = true
is_true (some (text s)) = truthy s
is_true (some (array vs)) = true
is_true (some (object fs)) = true

abbrev pub is_some : Option Json → Bool
is_some none = false
is_some (some v) = true

-- `k in v`, for a key that only an object has.
abbrev pub has_key : String → Option Json → Eval Bool
has_key k (some (object fs)) = value (is_some (Dict.get (entries fs) k))
has_key k (some (array vs)) = value false
has_key k _ = type_error

-- `typeof v === 'string' ? v : undefined`
abbrev pub as_text : Option Json → Option String
as_text (some (text s)) = some s
as_text _ = none

-- `v && typeof v === 'object' && !Array.isArray(v) ? v : undefined`
abbrev pub as_record : Option Json → Option Json
as_record (some (object fs)) = some (object fs)
as_record _ = none

-- What `v?.find` and `v?.filter` range over: no array is no list, and any other value has no such
-- method.
abbrev pub elements? : Option Json → Eval (Option (List Json))
elements? none = value none
elements? (some null) = value none
elements? (some (array vs)) = value (some (items vs))
elements? (some _) = type_error

module _ (p : Json → Eval Bool) where
  abbrev pub find_when : Json → Bool → Eval (Option Json) → Eval (Option Json)
  find_when v true rest = value (some v)
  find_when v false rest = rest

  -- `vs.find(p)`; the first hit ends the search.
  abbrev pub find_in : List Json → Eval (Option Json)
  find_in [] = value none
  find_in (v ∷ vs) = p v >>= λ hit. find_when v hit (find_in vs)

  abbrev pub keep_when : Json → Bool → List Json → List Json
  keep_when v true vs = v ∷ vs
  keep_when v false vs = vs

  -- `vs.filter(p)`
  abbrev pub keep_in : List Json → Eval (List Json)
  keep_in [] = value []
  keep_in (v ∷ vs) = p v >>= λ hit. keep_in vs >>= λ rest. value (keep_when v hit rest)
