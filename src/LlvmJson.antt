-- ===== src/LlvmJson.antt =====
-- What the tools take from llvm::json: values, their texts, and the members of objects. The library
-- is a parameter, and `Documented` is what its documentation says of it.
pub mod Members
pub mod Trees
use lorelei.Base.{◌≡◌, ◌<◌, Bool, true, List, [], ◌∷◌, Option, none, some, Bytes, ◌>>=?◌, All}
use lorelei.Ordered.{Map, find}

-- `llvm::Expected` and `llvm::ErrorOr`
pub data Expected {ℓ} (A : Type ℓ) : Type ℓ where
  value : A → Expected A
  error : Bytes → Expected A

pub record LlvmJson : Type 1 where
  pub Value : Type 0
  -- the text of a document
  pub Text : Type 0
  pub parse : Text → Expected Value
  pub print : Value → Text
  pub string : Bytes → Value
  pub array : List Value → Value
  -- the object with these members, set one after another
  pub object : Map Value → Value
  pub get_as_string : Value → Option Bytes
  pub get_as_array : Value → Option (List Value)
  -- the members in the order of iteration
  pub get_as_object : Value → Option (Map Value)
  pub is_utf8 : Bytes → Bool

-- Each key is there once.
abbrev pub Distinct {ℓ} : {V : Type ℓ} → Map V → Type ℓ
Distinct [] = Unit
Distinct ((k, v) ∷ m) = (find k m ≡ none) × Distinct m

module _ (lib : LlvmJson) where
  open lib use {
    Value, Text, parse, print, string, array, object, get_as_string, get_as_array, get_as_object,
    is_utf8,
  }

  -- `obj->getString(key)`, `obj->getArray(key)`, `obj->getObject(key)`
  abbrev pub get_string : Map Value → Bytes → Option Bytes
  get_string obj key = find key obj >>=? get_as_string

  abbrev pub get_array : Map Value → Bytes → Option (List Value)
  get_array obj key = find key obj >>=? get_as_array

  abbrev pub get_object : Map Value → Bytes → Option (Map Value)
  get_object obj key = find key obj >>=? get_as_object

  abbrev pub Utf8 : Bytes → Type 0
  Utf8 s = is_utf8 s ≡ true

  -- An object has the members that were set, in an order that is not specified.
  abbrev pub HasMembers : Map Value → Map Value → Type 0
  HasMembers set members =
      (get_as_object (object set) ≡ some members)
      × Distinct members
      × ((k : Bytes) → find k members ≡ find k set)

  pub record Documented : Type 0 where
    pub parse-print : (v : Value) → parse (print v) ≡ value v
    pub ascii_lem : (s : Bytes) → All (λ c. c < 128) s → Utf8 s
    pub string_lem : (s : Bytes) → Utf8 s → get_as_string (string s) ≡ some s
    pub array_lem : (vs : List Value) → get_as_array (array vs) ≡ some vs
    pub object_lem :
        (set : Map Value)
        → Distinct set
        → All (λ e. Utf8 e.0) set
        → (members : Map Value) × HasMembers set members
