-- ===== src/Base/Text.antt =====
-- `std::string` and `std::string_view` as lists of byte values, and what the standard library
-- gives on them: comparison, prefixes, substring search.
use Prim.Native.Char.{code}
use Prim.Native.Nat.{ℕ, zero, suc, ◌+◌, ◌/◌, ◌%◌}
use Prim.Native.String.{String}
use mathlib.Core.Path.{◌≡◌, refl}
use mathlib.Core.Logic.{◌↔◌}
use mathlib.Core.Bool.{Bool, true, false, ◌&&◌}
use mathlib.Core.List.{List, [], ◌∷◌}
use mathlib.Core.Option.{Option, none, some}
use native.Mathlib.Omega.{arith}
use lorelei.Base.Tests.{◌==◌, if◌then◌else◌}

abbrev pub Bytes : Type 0
Bytes = List ℕ

-- The bytes of an ASCII literal.
abbrev pub codes : String → Bytes
codes String.[] = []
codes (String.◌∷◌ c s) = code c ∷ codes s

abbrev pub is_nil {ℓ} : {A : Type ℓ} → List A → Bool
is_nil [] = true
is_nil (x ∷ xs) = false

unfoldable pub equal : Bytes → Bytes → Bool
equal [] [] = true
equal (x ∷ xs) (y ∷ ys) = x == y && equal xs ys
equal _ _ = false

pub equal_iff : (s t : Bytes) → (equal s t ≡ true) ↔ (s ≡ t)
unfolding equal
equal_iff [] [] = ground arith
equal_iff [] (d ∷ t) = ground arith
equal_iff (c ∷ s) [] = ground arith
equal_iff (c ∷ s) (d ∷ t) = ground (arith, equal_iff s t)

pub equal_refl : (a : Bytes) → equal a a ≡ true
equal_refl a = (equal_iff a a).1 refl

-- `s.starts_with(prefix)`
unfoldable pub has_prefix : Bytes → Bytes → Bool
has_prefix s [] = true
has_prefix [] (p ∷ ps) = false
has_prefix (c ∷ cs) (p ∷ ps) = c == p && has_prefix cs ps

-- `s.find(sub)`: the first position where `sub` stands, `none` for `npos`
unfoldable pub find : Bytes → Bytes → Option ℕ
find [] sub = if is_nil sub then some 0 else none
find (c ∷ cs) sub =
    let later : Option ℕ = elim (find cs sub) [ none ↦ none | some n ↦ some (suc n) ] in
    if has_prefix (c ∷ cs) sub then some 0 else later

unfoldable pub is_some {ℓ} : {A : Type ℓ} → Option A → Bool
is_some none = false
is_some (some a) = true

-- whether the byte occurs
unfoldable pub has_byte : ℕ → Bytes → Bool
has_byte b [] = false
has_byte b (c ∷ cs) = if c == b then true else has_byte b cs

-- the decimal digits of the number, in front of the text
unfoldable pub prepend_digits : ℕ → ℕ → Bytes → Bytes
prepend_digits zero n s = s
prepend_digits (suc rounds) n s =
    let digit = (b'0' + n % 10) ∷ s in
    let more = prepend_digits rounds (n / 10) digit in if n / 10 == 0 then digit else more

-- `std::to_string(n)`
unfoldable pub to_string : ℕ → Bytes
unfolding prepend_digits
to_string n = prepend_digits (suc n) n []
