-- ===== src/Config/Line/Laws.antt =====
-- Trimming, quotes and comments of one line.
pub mod Comment
use Prim.Native.Nat.add
use lorelei.Base.{
  ℕ, zero, suc, ◌+◌, ◌-◌, ◌≤◌, ◌<◌, ◌≡◌, ◌≢◌, refl, sym, ap, ◌∙◌, subst, Bool, true, false, not,
  ◌&&◌, ◌||◌, List, [], ◌∷◌, ◌++◌, append-nil, append_assoc, Option, none, some, Bytes, length,
  take, drop, take-append-drop, take-drop, drop-drop, take_all, ◌==◌, if◌then◌else◌, has_byte,
  Option-cases, inl, inr, arith,
}
use lorelei.Config.Line.{
  spaces, trim, back, init, is_quote, unquote_string, escape_code, unescape_loop,
  parse_quoted_string,
}
use lorelei.Str.Trim.Laws.{
  all_in, starts_in, ends_in, IsTrim, cut, kept, find_first-cut, find_last-kept, starts_in-take,
}
use lorelei.Str.Trim.{find_first_not_of, find_last_not_of}

first-le-last :
    (s chars : Bytes) (a : ℕ)
    → find_first_not_of s chars ≡ some a
    → (b : ℕ) × (find_last_not_of s chars ≡ some b) × (a ≤ b)
unfolding find_first_not_of find_last_not_of
first-le-last [] chars a h = cc
first-le-last (c ∷ s) chars a h = elim (Option-cases (find_last_not_of s chars)) [
  | inr (b, e) ↦ (
    suc b,
    rw e,
    elim (Option-cases (find_first_not_of s chars)) [
      | inl f ↦ ground arith
      | inr (a', f) ↦ let (b', g, le) = first-le-last s chars a' f in ground arith
    ],
  )
  | inl e ↦ elim (Option-cases (find_first_not_of s chars)) [
    | inl f ↦ (0, ground arith, ground arith)
    | inr (a', f) ↦ let (b', g, le) = first-le-last s chars a' f in cc (sym e ∙ g)
  ]
]

ends_in-drop :
    (chars : Bytes) (n : ℕ) (s : Bytes) → ends_in chars s ≡ false → ends_in chars (drop n s) ≡ false
ends_in-drop chars zero s h = h
ends_in-drop chars (suc n) [] h = refl
ends_in-drop chars (suc zero) (c ∷ []) h = refl
ends_in-drop chars (suc (suc n)) (c ∷ []) h = refl
ends_in-drop chars (suc n) (c ∷ d ∷ s) h = ends_in-drop chars n (d ∷ s) h

-- The trimmed text, between positions of the text itself.
IsTrim-between :
    (s : Bytes) (a b : ℕ)
    → find_first_not_of s spaces ≡ some a
    → find_last_not_of s spaces ≡ some b
    → a ≤ b
    → IsTrim spaces s (take (b - a + 1) (drop a s))
unfolding cut kept
IsTrim-between s a b f g le =
    let n = b - a + 1 in
    let front = find_first-cut s spaces in
    let behind_b = find_last-kept s spaces in
    let e : a + n ≡ suc b = omega arith in
    record {
      before = take a s;
      behind = drop n (drop a s);
      splits = sym (ap (◌++◌ (take a s)) (take-append-drop n (drop a s)) ∙ take-append-drop a s);
      before_in = subst (λ o. all_in spaces (take (cut s o) s) ≡ true) f front.0;
      behind_in =
          rw (drop-drop, e) (subst (λ o. all_in spaces (drop (kept o) s) ≡ true) g behind_b.0);
      starts =
          starts_in-take spaces n (drop a s)
            (subst (λ o. starts_in spaces (drop (cut s o) s) ≡ false) f front.1);
      ends =
          rw (take-drop, e)
            (ends_in-drop spaces a (take (suc b) s)
              (subst (λ o. ends_in spaces (take (kept o) s) ≡ false) g behind_b.1));
    }

-- The `trim` of the configuration reader takes blanks, tabs and line ends off both ends of the
-- text, and keeps what lies between.
pub trim_lem : (s : Bytes) → IsTrim spaces s (trim s)
unfolding trim cut
trim_lem s = elim (Option-cases (find_first_not_of s spaces)) [
  | inl e ↦
      let all : all_in spaces (take (length s) s) ≡ true =
        subst (λ o. all_in spaces (take (cut s o) s) ≡ true) e (find_first-cut s spaces).0 in
      rw (e, trim)
        (record {
          before = take (length s) s;
          behind = [];
          splits = rw append-nil (sym (take_all s));
          before_in = all;
          behind_in = refl;
          starts = refl;
          ends = refl;
        })
  | inr (a, e) ↦
      let (b, g, le) = first-le-last s spaces a e in rw (e, trim, g) (IsTrim-between s a b e g le)
]

init-back : (c : ℕ) (s : Bytes) → (back (s ++ c ∷ []) ≡ c) × (init (s ++ c ∷ []) ≡ s)
init-back c [] = (refl, refl)
init-back c (d ∷ []) = (refl, refl)
init-back c (d ∷ e ∷ s) = ((init-back c (e ∷ s)).0, ap (◌∷◌ d) (init-back c (e ∷ s)).1)

-- A byte as it is written between quotes.
abbrev pub escape_byte : ℕ → Bytes
escape_byte c =
    if c == 10
    then b'\\' ∷ b'n' ∷ []
    else if c == 9
    then b'\\' ∷ b't' ∷ []
    else if c == 13
    then b'\\' ∷ b'r' ∷ []
    else if c == b'\\' || is_quote c
    then b'\\' ∷ c ∷ []
    else c ∷ []

abbrev pub escape : Bytes → Bytes
escape [] = []
escape (c ∷ s) = escape_byte c ++ escape s

unescape_loop-byte :
    (result : Bytes) (c : ℕ) (s : Bytes)
    → unescape_loop result (escape_byte c ++ s) ≡ unescape_loop (result ++ c ∷ []) s
unfolding unescape_loop
unescape_loop-byte result c [] = ground arith
unescape_loop-byte result c (d ∷ s) = ground arith

unescape_loop-escape : (s result : Bytes) → unescape_loop result (escape s) ≡ some (result ++ s)
unfolding unescape_loop
unescape_loop-escape [] result = rw append-nil
unescape_loop-escape (c ∷ s) result =
    unescape_loop-byte result c (escape s)
    ∙ unescape_loop-escape s (result ++ c ∷ [])
    ∙ rw append_assoc

-- A quote, and a text that ends in the same quote.
parse_quoted_string-quote :
    (q d : ℕ) (u : Bytes)
    → is_quote q ≡ true
    → back (d ∷ u) ≡ q
    → parse_quoted_string (q ∷ d ∷ u) ≡ unescape_loop [] (init (d ∷ u))
unfolding parse_quoted_string
parse_quoted_string-quote q d u h e = ground arith

unquote_string-quote :
    (q d : ℕ) (u : Bytes)
    → is_quote q ≡ true
    → back (d ∷ u) ≡ q
    → unquote_string (q ∷ d ∷ u) ≡ init (d ∷ u)
unfolding unquote_string
unquote_string-quote q d u h e = ground arith

parse_quoted_string-cons :
    (q : ℕ) (t : Bytes)
    → is_quote q ≡ true
    → parse_quoted_string (q ∷ (t ++ q ∷ [])) ≡ unescape_loop [] t
parse_quoted_string-cons q [] h = parse_quoted_string-quote q q [] h refl
parse_quoted_string-cons q (c ∷ t) h =
    let (last, rest) = init-back q (c ∷ t) in
    parse_quoted_string-quote q c (t ++ q ∷ []) h last ∙ ap (unescape_loop []) rest

unquote_string-cons :
    (q : ℕ) (t : Bytes) → is_quote q ≡ true → unquote_string (q ∷ (t ++ q ∷ [])) ≡ t
unquote_string-cons q [] h = unquote_string-quote q q [] h refl
unquote_string-cons q (c ∷ t) h =
    let (last, rest) = init-back q (c ∷ t) in unquote_string-quote q c (t ++ q ∷ []) h last ∙ rest

abbrev pub starts_quote : Bytes → Bool
starts_quote [] = false
starts_quote (c ∷ s) = is_quote c

-- A text that is escaped and put in quotes of either kind is read back by parseQuotedString.
pub parse_quoted_string-escape :
    (q : ℕ) (s : Bytes)
    → is_quote q ≡ true
    → parse_quoted_string (q ∷ (escape s ++ q ∷ [])) ≡ some s
parse_quoted_string-escape q s h =
    parse_quoted_string-cons q (escape s) h ∙ unescape_loop-escape s []

parse_quoted_string-plain : (s : Bytes) → starts_quote s ≡ false → parse_quoted_string s ≡ some s
unfolding parse_quoted_string
parse_quoted_string-plain [] h = refl
parse_quoted_string-plain (c ∷ []) h = rw h
parse_quoted_string-plain (c ∷ d ∷ s) h = rw h

-- A text in quotes that does not start with a quote itself is kept as it is written, escapes
-- too, when the quotes are taken off before parseQuotedString reads it, as is done with a key
-- and a value.
pub parse_quoted_string-unquote_string :
    (q : ℕ) (s : Bytes)
    → is_quote q ≡ true
    → starts_quote s ≡ false
    → parse_quoted_string (unquote_string (q ∷ (s ++ q ∷ []))) ≡ some s
parse_quoted_string-unquote_string q s h plain =
    rw (unquote_string-cons q s h) (parse_quoted_string-plain s plain)
