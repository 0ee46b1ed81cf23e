-- ===== src/Config/Section.antt =====
-- `ConfigFile::Section` of include/lorelei/Support/ConfigFile.h, and its `addKeyValue`, `getInt` and
-- `getBool` of src/libs/Support/ConfigFile.cpp.
pub mod Laws
use lorelei.Base.{
  ℕ, zero, suc, ◌+◌, ◌-◌, ◌*◌, ◌^◌, Bool, true, false, not, ◌&&◌, ◌||◌, List, [], ◌∷◌, ◌++◌, map,
  Option, none, some, Bytes, codes, is_nil, is_some, length, get_elem?, set, equal, ◌==◌, leb,
  if◌then◌else◌, Run, ok, undefined, ◌>>=◌, ℤ, pos, neg,
}
use lorelei.Index.{Index, lookup, assign, at}
use lorelei.Str.Trim.{to_lower}

pub record Section : Type 0 where
  pub key_values : List (Bytes × Bytes)
  pub key_index : Index
  pub name : Bytes

abbrev pub new_section : Bytes → Section
new_section n = record { key_values = []; key_index = []; name = n }

-- `m_keyIndex.find(key) != m_keyIndex.end()`
unfoldable pub contains : Section → Bytes → Bool
contains s key = is_some (lookup key s.key_index)

unfoldable pub get_string : Section → Bytes → Run (Option Bytes)
get_string s key = elim (lookup key s.key_index) [
  | none ↦ ok none
  | some i ↦ at s.key_values i >>= λ kv. ok (some kv.1)
]

-- `m_keyValues[i].second = value`
unfoldable pub overwrite : List (Bytes × Bytes) → ℕ → Bytes → Run (List (Bytes × Bytes))
overwrite kvs i value = at kvs i >>= λ kv. ok (set kvs i (kv.0, value))

unfoldable pub add_key_value : Section → Bytes → Bytes → Run Section
unfolding overwrite
add_key_value s key value = elim (lookup key s.key_index) [
  | none ↦ ok (record s {
    key_values = s.key_values ++ (key, value) ∷ [];
    key_index = assign key (length s.key_values) s.key_index;
  })
  | some i ↦ overwrite s.key_values i value >>= λ kvs. ok (record s { key_values = kvs })
]

abbrev pub keys : Section → List Bytes
keys s = map (λ kv. kv.0) s.key_values

abbrev pub size : Section → ℕ
size s = length s.key_values

-- `value_or(defaultValue)`
abbrev pub value_or {ℓ} : {A : Type ℓ} → Option A → A → A
value_or none d = d
value_or (some a) d = a

unfoldable pub get_string_or : Section → Bytes → Bytes → Run Bytes
unfolding get_string
get_string_or s key d = get_string s key >>= λ v. ok (value_or v d)

-- `!strVal || strVal->empty()` gives no value to the conversion.
unfoldable pub filled : {A : Type 0} → (Bytes → Option A) → Option Bytes → Option A
filled f none = none
filled f (some []) = none
filled f (some (c ∷ s)) = f (c ∷ s)

-- `strVal->c_str()` ends at the first zero byte.
unfoldable pub c_str : Bytes → Bytes
c_str [] = []
c_str (c ∷ s) = if c == 0 then [] else c ∷ c_str s

abbrev pub is_space : ℕ → Bool
is_space c = c == 32 || (leb 9 c && leb c 13)

unfoldable pub skip_space : Bytes → Bytes
skip_space [] = []
skip_space (c ∷ s) = if is_space c then skip_space s else c ∷ s

abbrev pub is_digit : ℕ → Bool
is_digit c = leb b'0' c && leb c b'9'

-- The value of the digits at the front, behind the value so far, and the rest of the text.
unfoldable pub digits : ℕ → Bytes → ℕ × Bytes
digits n [] = (n, [])
digits n (c ∷ s) =
    let more = digits (n * 10 + (c - b'0')) s in if is_digit c then more else (n, c ∷ s)

-- Whether the text starts with a minus, and the text behind the sign.
unfoldable pub sign : Bytes → Bool × Bytes
sign [] = (false, [])
sign (c ∷ s) = if c == b'-' then (true, s) else if c == b'+' then (false, s) else (false, c ∷ s)

abbrev pub starts_digit : Bytes → Bool
starts_digit [] = false
starts_digit (c ∷ s) = is_digit c

-- `std::strtol(s, &endptr, 10)`: the number and `*endptr == '\0'`, or `none` for `ERANGE`. With no
-- digit `endptr` is the start of the text.
unfoldable pub strtol : Bytes → Option (ℤ × Bool)
unfolding skip_space sign digits
strtol s =
    let (minus, t) = sign (skip_space s) in
    let (n, rest) = digits 0 t in
    if not (starts_digit t)
    then some (pos 0, is_nil s)
    else if minus
    then (if leb n (2 ^ 63) then some (neg n, is_nil rest) else none)
    else if leb n (2 ^ 63 - 1)
    then some (pos n, is_nil rest)
    else none

-- the test on `std::numeric_limits<int>`
abbrev pub int_range : ℤ → Bool
int_range (ℤ.pos n) = leb n (2 ^ 31 - 1)
int_range (ℤ.negsuc n) = leb n (2 ^ 31 - 1)

unfoldable pub parse_int : Bytes → Option ℤ
unfolding c_str strtol
parse_int s = elim (strtol (c_str s)) [
  | none ↦ none
  | some r ↦ if not r.1 then none else if not (int_range r.0) then none else some r.0
]

unfoldable pub get_int : Section → Bytes → Run (Option ℤ)
unfolding get_string filled parse_int
get_int s key = get_string s key >>= λ v. ok (filled parse_int v)

abbrev one_of : List Bytes → Bytes → Bool
one_of [] s = false
one_of (w ∷ ws) s = equal s w || one_of ws s

unfoldable pub parse_bool : Bytes → Option Bool
unfolding to_lower equal
parse_bool s =
    let lower_val = to_lower s in
    if one_of (codes "true" ∷ codes "yes" ∷ codes "on" ∷ codes "1" ∷ []) lower_val
    then some true
    else if one_of (codes "false" ∷ codes "no" ∷ codes "off" ∷ codes "0" ∷ []) lower_val
    then some false
    else none

unfoldable pub get_bool : Section → Bytes → Run (Option Bool)
unfolding get_string filled parse_bool
get_bool s key = get_string s key >>= λ v. ok (filled parse_bool v)
