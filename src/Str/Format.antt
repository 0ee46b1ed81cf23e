-- ===== src/Str/Format.antt =====
-- `format` of src/libs/Support/StringExtras.cpp. A position is told by the rest of the text, and the
-- segment from `segment_start` to `p` by its bytes. A part is told by its bytes.
pub mod Template
pub mod Overflow
use mathlib.Core.List.{flatten}
use lorelei.Base.{
  ℕ, zero, suc, ◌+◌, ◌-◌, ◌*◌, ◌^◌, Bool, true, false, ◌&&◌, List, [], ◌∷◌, ◌++◌, Option, none,
  some, Bytes, is_nil, length, get_elem?, ◌==◌, ltb, leb, if◌then◌else◌, Run, ok, undefined,
  starved, ◌>>=◌,
}

-- `isdigit`
abbrev pub is_digit : ℕ → Bool
is_digit c = leb b'0' c && leb c b'9'

abbrev pub int_max : ℕ
int_max = 2 ^ 31 - 1

-- `while (!is_end(q) && isdigit(*q))`: the number, the digits read, and the text from `q` on. The
-- sum is an `int`, and its overflow is undefined behaviour.
unfoldable pub read_index : ℕ → Bytes → Bytes → Run (ℕ × Bytes × Bytes)
read_index index seen [] = ok (index, seen, [])
read_index index seen (c ∷ cs) =
    let sum = index * 10 + (c - b'0') in
    let more = read_index sum (seen ++ c ∷ []) cs in
    if is_digit c then (if leb sum int_max then more else undefined) else ok (index, seen, c ∷ cs)

-- `args[index - 1]`, where `index - 1` is not negative and in range
abbrev pub arg_at : List Bytes → ℕ → Option Bytes
arg_at args zero = none
arg_at args (suc index) = get_elem? args index

-- `if (p > segment_start) push_back(segment_start, p - segment_start)`
abbrev pub push_segment : List Bytes → Bytes → List Bytes
push_segment parts segment = if is_nil segment then parts else parts ++ segment ∷ []

unfoldable pub format_loop : ℕ → List Bytes → Bytes → Bytes → List Bytes → Run (List Bytes)
format_loop zero args segment rest parts = starved
format_loop (suc fuel) args segment [] parts = ok (push_segment parts segment)
format_loop (suc fuel) args segment (c ∷ []) parts =
    format_loop fuel args (segment ++ c ∷ []) [] parts
format_loop (suc fuel) args segment (c ∷ d ∷ cs) parts =
    let percent = format_loop fuel args [] cs (push_segment parts segment ++ (b'%' ∷ []) ∷ []) in
    let reference : Run (List Bytes) = read_index (d - b'0') (d ∷ []) cs >>= λ r.
    elim (arg_at args r.0) [
      | none ↦ format_loop fuel args (segment ++ c ∷ r.1) r.2 parts
      | some arg ↦ format_loop fuel args [] r.2 (push_segment parts segment ++ arg ∷ [])
    ] in
    let plain = format_loop fuel args (segment ++ c ∷ []) (d ∷ cs) parts in
    if c == b'%'
    then (if d == b'%' then percent else if is_digit d then reference else plain)
    else plain

-- A round takes at least one byte.
unfoldable pub format : Bytes → List Bytes → Run Bytes
unfolding format_loop read_index flatten
format fmt args = format_loop (suc (length fmt)) args [] fmt [] >>= λ parts. ok (flatten parts)
