-- ===== src/Logging/Parse.antt =====
-- What `parseRule` of src/libs/Support/Logging.cpp makes of a rule that is put together from its
-- parts.
use lorelei.Base.{
  ℕ, suc, ◌+◌, ◌-◌, ◌≡◌, refl, ap, ◌∙◌, Bool, true, false, [], ◌∷◌, ◌++◌, none, some, Bytes, codes,
  equal, sym, subst, is_nil, has_byte, has_prefix, find, take, drop, length, length-append,
  take-append, append-nil, ◌==◌, arith,
}
use lorelei.Str.Trim.{starts_with_char, ends_with_char, trim, blanks}
use lorelei.Logging.{
  MatchMode, exact, prefix, suffix, inside, level_from_token, parse_bool, rfind, level_of,
  fold_mode, strip_stars, rule_of, parse_rule,
}

find-byte :
    (c : ℕ) (x y : Bytes) → has_byte c x ≡ false → find (x ++ c ∷ y) (c ∷ []) ≡ some (length x)
unfolding find has_prefix has_byte
find-byte c [] y h = ground arith
find-byte c (a ∷ x) y h =
    let rest = find-byte c x y (ground arith) in
    let here : (a == c) ≡ false = ground arith in rw (rest, here) refl

rfind-none : (c : ℕ) (s : Bytes) → has_byte c s ≡ false → rfind c s ≡ none
unfolding rfind has_byte
rfind-none c [] h = refl
rfind-none c (a ∷ s) h =
    let rest = rfind-none c s (ground arith) in
    let here : (a == c) ≡ false = ground arith in rw (rest, here) refl

rfind-byte : (c : ℕ) (s t : Bytes) → has_byte c t ≡ false → rfind c (s ++ c ∷ t) ≡ some (length s)
unfolding rfind
rfind-byte c [] t h = rw (rfind-none c t h) (ground arith)
rfind-byte c (a ∷ s) t h = rw (rfind-byte c s t h) refl

drop-append_suc : (p t : Bytes) (c : ℕ) → drop (length p + 1) (p ++ c ∷ t) ≡ t
drop-append_suc [] t c = refl
drop-append_suc (x ∷ p) t c =
    let n : suc (length p) + 1 ≡ suc (length p + 1) = omega arith in rw n (drop-append_suc p t c)

abbrev star : Bool → Bytes
star true = b'*' ∷ []
star false = []

abbrev name_source : Bool → Bytes → Bool → Bytes
name_source left text right = star left ++ (text ++ star right)

-- the tokens of the levels
pub data NamesLevel : Bytes → ℕ → Type 0 where
  trace_token : NamesLevel (codes "trace") 1
  debug_token : NamesLevel (codes "debug") 2
  success_token : NamesLevel (codes "success") 3
  info_token : NamesLevel (codes "info") 4
  information_token : NamesLevel (codes "information") 4
  warning_token : NamesLevel (codes "warning") 5
  critical_token : NamesLevel (codes "critical") 6
  fatal_token : NamesLevel (codes "fatal") 7

-- What stands behind the last dot, if any, is no token.
pub data HasNoLevel : Bytes → Type 0 where
  no_dot : {name : Bytes} → has_byte b'.' name ≡ false → HasNoLevel name
  no_token :
      (before behind : Bytes)
      → has_byte b'.' behind ≡ false
      → level_from_token behind ≡ 0
      → HasNoLevel (before ++ b'.' ∷ behind)

-- The level behind a name, with its dot, or none and 0.
pub data LevelSource (name : Bytes) : Bytes → ℕ → Type 0 where
  no_level : HasNoLevel name → LevelSource name [] 0
  with_level :
      {token : Bytes} {level : ℕ} → NamesLevel token level → LevelSource name (b'.' ∷ token) level

level_from_token-NamesLevel :
    (token : Bytes) (level : ℕ)
    → NamesLevel token level
    → (level_from_token token ≡ level) × (has_byte b'.' token ≡ false) × ((level == 0) ≡ false)
unfolding level_from_token has_byte equal
level_from_token-NamesLevel _ _ trace_token = (refl, refl, refl)
level_from_token-NamesLevel _ _ debug_token = (refl, refl, refl)
level_from_token-NamesLevel _ _ success_token = (refl, refl, refl)
level_from_token-NamesLevel _ _ info_token = (refl, refl, refl)
level_from_token-NamesLevel _ _ information_token = (refl, refl, refl)
level_from_token-NamesLevel _ _ warning_token = (refl, refl, refl)
level_from_token-NamesLevel _ _ critical_token = (refl, refl, refl)
level_from_token-NamesLevel _ _ fatal_token = (refl, refl, refl)

level_of-HasNoLevel : (name : Bytes) → HasNoLevel name → level_of name ≡ (0, name)
unfolding level_of
level_of-HasNoLevel name (no_dot h) = rw (rfind-none b'.' name h, level_of) refl
level_of-HasNoLevel _ (no_token before behind h k) =
    rw (rfind-byte b'.' before behind h, level_of, drop-append_suc before behind b'.', k) refl

level_of-source :
    (name source : Bytes) (level : ℕ)
    → LevelSource name source level
    → level_of (name ++ source) ≡ (level, name)
unfolding level_of
level_of-source name _ _ (no_level h) = rw append-nil (level_of-HasNoLevel name h)
level_of-source name _ level (with_level {token = token} h) =
    let (value, undotted, known) = level_from_token-NamesLevel token level h in
    rw
      (
        rfind-byte b'.' name token undotted,
        level_of,
        drop-append_suc name token b'.',
        value,
        known,
        take-append name (b'.' ∷ token),
      )
      refl

starts-star :
    (left : Bool) (c : ℕ) (s : Bytes)
    → (c == b'*') ≡ false
    → starts_with_char (star left ++ c ∷ s) b'*' ≡ left
unfolding starts_with_char
starts-star true c s h = refl
starts-star false c s h = h

ends-star :
    (right : Bool) (c : ℕ) (s : Bytes)
    → has_byte b'*' (c ∷ s) ≡ false
    → ends_with_char (c ∷ (s ++ star right)) b'*' ≡ right
unfolding ends_with_char has_byte
ends-star true c [] h = refl
ends-star false c [] h = ground arith
ends-star right c (d ∷ s) h = ends-star right d s (ground arith)

ends-stars :
    (left right : Bool) (c : ℕ) (s : Bytes)
    → has_byte b'*' (c ∷ s) ≡ false
    → ends_with_char (name_source left (c ∷ s) right) b'*' ≡ right
unfolding ends_with_char
ends-stars true right c s h = ends-star right c s h
ends-stars false right c s h = ends-star right c s h

strip_stars-name :
    (left right : Bool) (c : ℕ) (s : Bytes)
    → strip_stars left right (name_source left (c ∷ s) right) ≡ c ∷ s
unfolding strip_stars
strip_stars-name true true c s =
    let n : length (c ∷ (s ++ b'*' ∷ [])) - 1 ≡ length (c ∷ s) =
      omega (arith, length-append s (b'*' ∷ [])) in
    ap (λ k. take k (c ∷ (s ++ b'*' ∷ []))) n ∙ take-append (c ∷ s) (b'*' ∷ [])
strip_stars-name true false c s = ap (◌∷◌ c) (append-nil s)
strip_stars-name false true c s =
    let n : length (c ∷ (s ++ b'*' ∷ [])) - 1 ≡ length (c ∷ s) =
      omega (arith, length-append s (b'*' ∷ [])) in
    ap (λ k. take k (c ∷ (s ++ b'*' ∷ []))) n ∙ take-append (c ∷ s) (b'*' ∷ [])
strip_stars-name false false c s = ap (◌∷◌ c) (append-nil s)

first_byte : (c : ℕ) (s : Bytes) → has_byte b'*' (c ∷ s) ≡ false → (c == b'*') ≡ false
unfolding has_byte
first_byte c s h = ground arith

filled_name :
    (left right : Bool) (c : ℕ) (s t : Bytes) → is_nil (name_source left (c ∷ s) right ++ t) ≡ false
filled_name true right c s t = refl
filled_name false right c s t = refl

rule_of-source :
    (left right : Bool) (c : ℕ) (s source : Bytes) (level : ℕ) (enable : Bool)
    → has_byte b'*' (c ∷ s) ≡ false
    → LevelSource (name_source left (c ∷ s) right) source level
    → rule_of (name_source left (c ∷ s) right ++ source) enable
      ≡ some (record { text = c ∷ s; mode = fold_mode left right; level = level; enable = enable })
unfolding rule_of
rule_of-source left right c s source level enable h l =
    let name = name_source left (c ∷ s) right in
    let first : (c == b'*') ≡ false = first_byte c s h in
    rw
      (
        level_of-source name source level l,
        rule_of,
        starts-star left c (s ++ star right) first,
        ends-stars left right c s h,
        strip_stars-name left right c s,
        h,
      )
      (ground arith)

parse_rule-name :
    (left right : Bool) (c : ℕ) (s source : Bytes) (level : ℕ) (enable : Bool) (x y : Bytes)
    → has_byte b'*' (c ∷ s) ≡ false
    → LevelSource (name_source left (c ∷ s) right) source level
    → has_byte b'=' x ≡ false
    → trim x blanks ≡ name_source left (c ∷ s) right ++ source
    → parse_bool (trim y blanks) ≡ some enable
    → parse_rule (x ++ b'=' ∷ y)
      ≡ some (record { text = c ∷ s; mode = fold_mode left right; level = level; enable = enable })
unfolding parse_rule
parse_rule-name left right c s source level enable x y h l free pattern value =
    rw
      (
        find-byte b'=' x y free,
        parse_rule,
        drop-append_suc x y b'=',
        value,
        take-append x (b'=' ∷ y),
        pattern,
        filled_name left right c s source,
      )
      (rule_of-source left right c s source level enable h l)

-- A prefix is followed by a star, a suffix has one in front, and a text inside has both.
abbrev pub pattern_source : MatchMode → Bytes → Bytes
pattern_source exact text = text
pattern_source prefix text = text ++ b'*' ∷ []
pattern_source suffix text = b'*' ∷ text
pattern_source inside text = b'*' ∷ (text ++ b'*' ∷ [])

-- A rule that is put together of a category for its way of matching, with a star behind a
-- prefix, before a suffix, and on both sides of a text inside, a level or none, = and a value is
-- parsed into these parts, when the category is not empty and has no *, the text before = has no
-- = and trims to the pattern, the value reads as a Boolean, and without a level what stands
-- behind the last dot of the pattern is no token of a level.
pub parse_rule-source :
    (mode : MatchMode) (c : ℕ) (s source : Bytes) (level : ℕ) (enable : Bool) (x y : Bytes)
    → has_byte b'*' (c ∷ s) ≡ false
    → LevelSource (pattern_source mode (c ∷ s)) source level
    → has_byte b'=' x ≡ false
    → trim x blanks ≡ pattern_source mode (c ∷ s) ++ source
    → parse_bool (trim y blanks) ≡ some enable
    → parse_rule (x ++ b'=' ∷ y)
      ≡ some (record { text = c ∷ s; mode = mode; level = level; enable = enable })
unfolding fold_mode
parse_rule-source exact c s source level enable x y h l free pattern value =
    let bare : name_source false (c ∷ s) false ≡ c ∷ s = append-nil (c ∷ s) in
    parse_rule-name false false c s source level enable x y h
      (subst (λ n. LevelSource n source level) (sym bare) l) free
      (pattern ∙ ap (λ n. n ++ source) (sym bare)) value
parse_rule-source prefix c s source level enable x y h l free pattern value =
    parse_rule-name false true c s source level enable x y h l free pattern value
parse_rule-source suffix c s source level enable x y h l free pattern value =
    let bare : name_source true (c ∷ s) false ≡ b'*' ∷ (c ∷ s) =
      ap (◌∷◌ b'*') (append-nil (c ∷ s)) in
    parse_rule-name true false c s source level enable x y h
      (subst (λ n. LevelSource n source level) (sym bare) l) free
      (pattern ∙ ap (λ n. n ++ source) (sym bare)) value
parse_rule-source inside c s source level enable x y h l free pattern value =
    parse_rule-name true true c s source level enable x y h l free pattern value
