-- ===== src/Config/Line/Laws/Comment.antt =====
-- What `removeInlineComment` keeps of a line.
use lorelei.Base.{
  ℕ, ◌≡◌, ap, ◌∙◌, Bool, true, false, not, ◌&&◌, ◌||◌, List, [], ◌∷◌, ◌++◌, append-nil,
  append_assoc, some, Bytes, ◌==◌, has_byte, arith, All,
}
use lorelei.Config.Line.{is_quote, Quoting, comment_loop, remove_inline_comment}

-- A run of plain bytes, a quoted text, or a byte behind a backslash.
pub data Chunk : Type 0 where
  plain : Bytes → Chunk
  quoted : ℕ → Bytes → Chunk
  escaped : ℕ → Chunk

-- The bytes that `removeInlineComment` looks at.
abbrev pub is_special : ℕ → Bool
is_special c = c == b'\\' || is_quote c || c == b'#'

abbrev pub none_special : Bytes → Bool
none_special [] = true
none_special (c ∷ s) = not (is_special c) && none_special s

-- A quoted text holds neither its own quote nor a backslash.
abbrev pub IsChunk : Chunk → Type 0
IsChunk (plain t) = none_special t ≡ true
IsChunk (quoted q t) = (is_quote q ≡ true) × (has_byte q t ≡ false) × (has_byte b'\\' t ≡ false)
IsChunk (escaped c) = Unit

abbrev pub chunk_source : Chunk → Bytes
chunk_source (plain t) = t
chunk_source (quoted q t) = q ∷ (t ++ q ∷ [])
chunk_source (escaped c) = b'\\' ∷ c ∷ []

abbrev pub line_source : List Chunk → Bytes
line_source [] = []
line_source (x ∷ xs) = chunk_source x ++ line_source xs

-- Outside quotes and inside them, not behind a backslash; `k` is the last quote seen.
abbrev out : ℕ → Quoting
out k = record { in_quotes = false; quote_char = k; escaped = false }

abbrev inside : ℕ → Quoting
inside k = record { in_quotes = true; quote_char = k; escaped = false }

plain_byte :
    (k c : ℕ) (result s : Bytes)
    → is_special c ≡ false
    → comment_loop (out k) result (c ∷ s) ≡ comment_loop (out k) (result ++ c ∷ []) s
unfolding comment_loop
plain_byte k c result s h = ground arith

comment_loop-plain :
    (t : Bytes) (k : ℕ) (result rest : Bytes)
    → none_special t ≡ true
    → comment_loop (out k) result (t ++ rest) ≡ comment_loop (out k) (result ++ t) rest
comment_loop-plain [] k result rest h = rw append-nil
comment_loop-plain (c ∷ t) k result rest h =
    plain_byte k c result (t ++ rest) (ground arith)
    ∙ comment_loop-plain t k (result ++ c ∷ []) rest (ground arith)
    ∙ rw append_assoc

quoted_byte :
    (q c : ℕ) (result s : Bytes)
    → (c == q) ≡ false
    → (c == b'\\') ≡ false
    → comment_loop (inside q) result (c ∷ s) ≡ comment_loop (inside q) (result ++ c ∷ []) s
unfolding comment_loop
quoted_byte q c result s h k = ground arith

comment_loop-quoted :
    (t : Bytes) (q : ℕ) (result rest : Bytes)
    → is_quote q ≡ true
    → has_byte q t ≡ false
    → has_byte b'\\' t ≡ false
    → comment_loop (inside q) result (t ++ q ∷ rest)
      ≡ comment_loop (out q) (result ++ (t ++ q ∷ [])) rest
unfolding comment_loop has_byte
comment_loop-quoted [] q result rest hq h k = ground arith
comment_loop-quoted (c ∷ t) q result rest hq h k =
    quoted_byte q c result (t ++ q ∷ rest) (ground arith) (ground arith)
    ∙ comment_loop-quoted t q (result ++ c ∷ []) rest hq (ground arith) (ground arith)
    ∙ rw append_assoc

open_quote :
    (q k : ℕ) (result s : Bytes)
    → is_quote q ≡ true
    → comment_loop (out k) result (q ∷ s) ≡ comment_loop (inside q) (result ++ q ∷ []) s
unfolding comment_loop
open_quote q k result s h = ground arith

-- The loop passes over the chunks and keeps them, and is outside again.
comment_loop-chunks :
    (xs : List Chunk) (k : ℕ) (result rest : Bytes)
    → All IsChunk xs
    → (k' : ℕ) × (comment_loop (out k) result (line_source xs ++ rest)
        ≡ comment_loop (out k') (result ++ line_source xs) rest)
unfolding comment_loop
comment_loop-chunks [] k result rest h = (k, rw append-nil)
comment_loop-chunks (plain t ∷ xs) k result rest h =
    let (k', run) = comment_loop-chunks xs k (result ++ t) rest h.1 in
    (
      k',
      rw append_assoc
          (comment_loop-plain t k result (line_source xs ++ rest) h.0 ∙ run ∙ rw append_assoc),
    )
comment_loop-chunks (quoted q t ∷ xs) k result rest h =
    let (k', run) = comment_loop-chunks xs q ((result ++ q ∷ []) ++ (t ++ q ∷ [])) rest h.1 in
    (
      k',
      open_quote q k result _ h.0.0
          ∙ ap (comment_loop (inside q) (result ++ q ∷ [])) (
              append_assoc (t ++ q ∷ []) (line_source xs) rest
              ∙ append_assoc t (q ∷ []) (line_source xs ++ rest))
          ∙ comment_loop-quoted t q (result ++ q ∷ []) (line_source xs ++ rest) h.0.0 h.0.1 h.0.2
          ∙ run
          ∙ ap (λ r. comment_loop (out k') r rest)
              (append_assoc (result ++ q ∷ []) (t ++ q ∷ []) (line_source xs)
                ∙ append_assoc result (q ∷ []) _),
    )
comment_loop-chunks (escaped c ∷ xs) k result rest h =
    let (k', run) = comment_loop-chunks xs k ((result ++ b'\\' ∷ []) ++ c ∷ []) rest h.1 in
    (k', run ∙ rw (append_assoc, append_assoc))

-- Behind plain runs, closed quotes and escaped bytes, # and what follows it is cut off; a #
-- within quotes or behind a backslash stays.
pub remove_inline_comment-comment :
    (xs : List Chunk) (comment : Bytes)
    → All IsChunk xs
    → remove_inline_comment (line_source xs ++ b'#' ∷ comment) ≡ some (line_source xs)
unfolding remove_inline_comment comment_loop
remove_inline_comment-comment xs comment h = (comment_loop-chunks xs 0 [] (b'#' ∷ comment) h).1

-- A line of plain runs, closed quotes and escaped bytes with no comment stays as it is.
pub remove_inline_comment-chunks :
    (xs : List Chunk)
    → All IsChunk xs
    → remove_inline_comment (line_source xs) ≡ some (line_source xs)
unfolding remove_inline_comment comment_loop
remove_inline_comment-chunks xs h = rw append-nil at ((comment_loop-chunks xs 0 [] [] h).1)
