-- ===== src/Str/Trim.antt =====
-- `starts_with`, `ends_with`, `contains`, `drop_front`, `drop_back`, `ltrim`, `rtrim`, `trim`,
-- `to_upper` and `to_lower` of include/lorelei/Support/StringExtras.h. `substr` beyond the text
-- throws: `drop_front` and `drop_back` are called with at most the length.
pub mod Laws
use lorelei.Base.{
  ℕ, zero, suc, ◌+◌, ◌-◌, ◌≤◌, min, Bool, true, false, not, ◌&&◌, List, [], ◌∷◌, map, Option, none,
  some, Bytes, is_nil, length, take, drop, ◌==◌, leb, if◌then◌else◌, has_byte, has_prefix, find,
  equal, is_some,
}

abbrev pub starts_with : Bytes → Bytes → Bool
starts_with = has_prefix

-- the overload for a character
unfoldable pub starts_with_char : Bytes → ℕ → Bool
starts_with_char [] c = false
starts_with_char (x ∷ s) c = x == c

unfoldable pub ends_with : Bytes → Bytes → Bool
ends_with s suffix =
    leb (length suffix) (length s) && equal (drop (length s - length suffix) s) suffix

unfoldable pub ends_with_char : Bytes → ℕ → Bool
ends_with_char [] c = false
ends_with_char (x ∷ []) c = x == c
ends_with_char (x ∷ y ∷ s) c = ends_with_char (y ∷ s) c

unfoldable pub contains : Bytes → Bytes → Bool
contains s sub = is_some (find s sub)

abbrev pub contains_char : Bytes → ℕ → Bool
contains_char s c = has_byte c s

abbrev pub drop_front : Bytes → ℕ → Bytes
drop_front s n = drop n s

abbrev pub drop_back : Bytes → ℕ → Bytes
drop_back s n = take (length s - n) s

-- `s.find_first_not_of(chars)` and `s.find_last_not_of(chars)`, `none` for `npos`
unfoldable pub find_first_not_of : Bytes → Bytes → Option ℕ
find_first_not_of [] chars = none
find_first_not_of (c ∷ s) chars =
    let later : Option ℕ = elim (find_first_not_of s chars) [
      | none ↦ none
      | some n ↦ some (suc n)
    ] in
    if has_byte c chars then later else some 0

unfoldable pub find_last_not_of : Bytes → Bytes → Option ℕ
find_last_not_of [] chars = none
find_last_not_of (c ∷ s) chars = elim (find_last_not_of s chars) [
  | some n ↦ some (suc n)
  | none ↦ if has_byte c chars then none else some 0
]

-- `std::min(s.size(), n)`, where `npos` is larger than every size
abbrev min_size : Bytes → Option ℕ → ℕ
min_size s none = length s
min_size s (some n) = min (length s) n

-- `n + 1`, where `npos + 1` is 0
abbrev after : Option ℕ → ℕ
after none = 0
after (some n) = suc n

unfoldable pub ltrim : Bytes → Bytes → Bytes
unfolding find_first_not_of
ltrim s chars = drop_front s (min_size s (find_first_not_of s chars))

unfoldable pub rtrim : Bytes → Bytes → Bytes
unfolding find_last_not_of
rtrim s chars = drop_back s (length s - min (length s) (after (find_last_not_of s chars)))

unfoldable pub trim : Bytes → Bytes → Bytes
unfolding ltrim rtrim
trim s chars = rtrim (ltrim s chars) chars

-- The default of `Chars`: " \t\n\v\f\r".
abbrev pub blanks : Bytes
blanks = 32 ∷ 9 ∷ 10 ∷ 11 ∷ 12 ∷ 13 ∷ []

-- `::toupper` and `::tolower` in the "C" locale
abbrev pub upper_byte : ℕ → ℕ
upper_byte c = if leb b'a' c && leb c b'z' then c - 32 else c

abbrev pub lower_byte : ℕ → ℕ
lower_byte c = if leb b'A' c && leb c b'Z' then c + 32 else c

unfoldable pub to_upper : Bytes → Bytes
to_upper s = map upper_byte s

unfoldable pub to_lower : Bytes → Bytes
to_lower s = map lower_byte s
