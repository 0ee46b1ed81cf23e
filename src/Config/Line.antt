-- ===== src/Config/Line.antt =====
-- The helpers of src/libs/Support/ConfigFile.cpp that read one line: `trim`, `isWhitespace`,
-- `unquoteString`, `parseQuotedString` and `removeInlineComment`.
pub mod Laws
use lorelei.Base.{
  ℕ, zero, suc, ◌+◌, ◌-◌, Bool, true, false, not, ◌&&◌, ◌||◌, List, [], ◌∷◌, ◌++◌, Option, none,
  some, Bytes, is_nil, length, take, drop, get_or, ◌==◌, ltb, leb, if◌then◌else◌,
}
use lorelei.Str.Trim.{find_first_not_of, find_last_not_of}

-- " \t\r\n"
abbrev pub spaces : Bytes
spaces = 32 ∷ 9 ∷ 13 ∷ 10 ∷ []

-- `str.substr(start, end - start + 1)`; `end` is there where `start` is
unfoldable pub trim : Bytes → Bytes
unfolding find_first_not_of find_last_not_of
trim str = elim (find_first_not_of str spaces) [
  | none ↦ []
  | some start ↦ elim (find_last_not_of str spaces) [
    | none ↦ drop start str
    | some end ↦ take (end - start + 1) (drop start str)
  ]
]

unfoldable pub is_whitespace : ℕ → Bool
is_whitespace c = c == 32 || c == 9 || c == 13 || c == 10

-- `str.back()` of a text that is not empty
abbrev pub back : Bytes → ℕ
back [] = 0
back (c ∷ []) = c
back (c ∷ d ∷ s) = back (d ∷ s)

-- The text without its last byte.
abbrev pub init : Bytes → Bytes
init [] = []
init (c ∷ []) = []
init (c ∷ d ∷ s) = c ∷ init (d ∷ s)

abbrev pub is_quote : ℕ → Bool
is_quote c = c == b'"' || c == 39

-- `str.substr(1, str.length() - 2)` between two equal quotes
unfoldable pub unquote_string : Bytes → Bytes
unquote_string [] = []
unquote_string (c ∷ []) = c ∷ []
unquote_string (c ∷ d ∷ s) =
    if (c == b'"' && back (d ∷ s) == b'"') || (c == 39 && back (d ∷ s) == 39)
    then init (d ∷ s)
    else c ∷ d ∷ s

-- The `switch` on the byte behind a backslash.
unfoldable pub escape_code : ℕ → Option ℕ
escape_code c =
    if c == b'n'
    then some 10
    else if c == b't'
    then some 9
    else if c == b'r'
    then some 13
    else if c == b'\\'
    then some b'\\'
    else if c == b'"'
    then some b'"'
    else if c == 39
    then some 39
    else none

-- The loop over the text between the quotes; `result` is what has been read.
unfoldable pub unescape_loop : Bytes → Bytes → Option Bytes
unfolding escape_code
unescape_loop result [] = some result
unescape_loop result (c ∷ []) = if c == b'\\' then none else some (result ++ c ∷ [])
unescape_loop result (c ∷ d ∷ s) =
    let escaped : Option Bytes = elim (escape_code d) [
      | none ↦ none
      | some e ↦ unescape_loop (result ++ e ∷ []) s
    ] in
    let plain = unescape_loop (result ++ c ∷ []) (d ∷ s) in if c == b'\\' then escaped else plain

unfoldable pub parse_quoted_string : Bytes → Option Bytes
unfolding unescape_loop
parse_quoted_string [] = some []
parse_quoted_string (c ∷ []) = if not (is_quote c) then some (c ∷ []) else none
parse_quoted_string (c ∷ d ∷ s) =
    if not (is_quote c)
    then some (c ∷ d ∷ s)
    else if not (back (d ∷ s) == c)
    then none
    else unescape_loop [] (init (d ∷ s))

-- What `removeInlineComment` carries from byte to byte.
pub record Quoting : Type 0 where
  pub in_quotes : Bool
  pub quote_char : ℕ
  pub escaped : Bool

abbrev pub outside : Quoting
outside = record { in_quotes = false; quote_char = 0; escaped = false }

-- The state behind a byte that is kept.
unfoldable pub next_quoting : Quoting → ℕ → Quoting
next_quoting q c =
    if q.escaped
    then record q { escaped = false }
    else if c == b'\\'
    then record q { escaped = true }
    else if is_quote c
    then (if not q.in_quotes
        then record q { in_quotes = true; quote_char = c }
        else if c == q.quote_char
        then record q { in_quotes = false }
        else q)
    else q

-- `c == '#' && !inQuotes`, which the loop reaches for a byte that is not escaped
abbrev pub starts_comment : Quoting → ℕ → Bool
starts_comment q c = not q.escaped && (c == b'#' && not q.in_quotes)

-- The two checks behind the loop.
abbrev pub finish_line : Quoting → Bytes → Option Bytes
finish_line q result = if q.in_quotes then none else if q.escaped then none else some result

unfoldable pub comment_loop : Quoting → Bytes → Bytes → Option Bytes
unfolding next_quoting
comment_loop q result [] = finish_line q result
comment_loop q result (c ∷ s) =
    let rest = comment_loop (next_quoting q c) (result ++ c ∷ []) s in
    if starts_comment q c then finish_line q result else rest

unfoldable pub remove_inline_comment : Bytes → Option Bytes
unfolding comment_loop
remove_inline_comment line = comment_loop outside [] line
