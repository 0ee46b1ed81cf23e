-- ===== src/Str/Split.antt =====
-- `join`, `split` and `replace` of src/libs/Support/StringExtras.cpp. A view is the list of its
-- bytes; the position `start` in a text is told by the part of the text behind it. `none` is a
-- loop that has not ended within its fuel.
pub mod Find
pub mod RoundTrip
use lorelei.Base.{
  ℕ, zero, suc, ◌+◌, List, [], ◌∷◌, ◌++◌, Option, none, some, Bytes, is_nil, find, length, take,
  drop, if◌then◌else◌,
}

join_loop : Bytes → Bytes → Bytes → List Bytes → Bytes
join_loop delimiter res x [] = res ++ x
join_loop delimiter res x (y ∷ ys) = join_loop delimiter ((res ++ x) ++ delimiter) y ys

unfoldable pub join : List Bytes → Bytes → Bytes
unfolding join_loop
join [] delimiter = []
join (x ∷ xs) delimiter = join_loop delimiter [] x xs

unfoldable pub split_loop : ℕ → Bytes → Bytes → List Bytes → Option (List Bytes)
split_loop zero delimiter rest tokens = none
split_loop (suc fuel) delimiter rest tokens = elim (find rest delimiter) [
  | none ↦ some (tokens ++ rest ∷ [])
  | some n ↦
      split_loop fuel delimiter (drop (n + length delimiter) rest) (tokens ++ take n rest ∷ [])
]

-- A token costs one round and takes at least the delimiter off the rest.
unfoldable pub split : Bytes → Bytes → Option (List Bytes)
unfolding split_loop
split s delimiter = split_loop (suc (length s)) delimiter s []

-- `finished` is the text before `start_pos`.
unfoldable pub replace_loop : ℕ → Bytes → Bytes → Bytes → Bytes → Option Bytes
replace_loop zero from to finished rest = none
replace_loop (suc fuel) from to finished rest = elim (find rest from) [
  | none ↦ some (finished ++ rest)
  | some n ↦
      replace_loop fuel from to ((finished ++ take n rest) ++ to) (drop (n + length from) rest)
]

unfoldable pub replace : Bytes → Bytes → Bytes → Option Bytes
unfolding replace_loop
replace str from to =
    if is_nil from then some str else replace_loop (suc (length str)) from to [] str
