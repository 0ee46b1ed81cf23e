-- ===== src/Logging.antt =====
-- The filter rules and the registry of the log categories: `LoggingRule`, `parseRule`,
-- `parseRules`, `LogRegistry`, the default filter and sink of src/libs/Support/Logging.cpp, and
-- `LogCategory` of include/lorelei/Support/Logging.h. A category is known by its address; a lock is
-- held for the whole of each call, so that the calls come one after another. A custom filter is a
-- function on the category it is handed.
pub mod Parse
pub mod Rules
pub mod Registry
pub mod Tests
use lorelei.Base.{
  ℕ, zero, suc, ◌+◌, Bool, true, false, not, ◌&&◌, ◌||◌, List, [], ◌∷◌, ◌++◌, map, Option, none,
  some, Bytes, codes, is_nil, equal, has_byte, find, take, drop, length, get_or, set, replicate,
  ◌==◌, leb, ltb, if◌then◌else◌, ◌>>=?◌,
}
use lorelei.Str.Split.{split}
use lorelei.Str.Trim.{
  starts_with, starts_with_char, ends_with, ends_with_char, contains, contains_char, drop_front,
  drop_back, trim, blanks, to_lower,
}

-- `Logger::Level`
abbrev pub trace : ℕ
trace = 1

abbrev pub debug : ℕ
debug = 2

abbrev pub success : ℕ
success = 3

abbrev pub information : ℕ
information = 4

abbrev pub warning : ℕ
warning = 5

abbrev pub critical : ℕ
critical = 6

abbrev pub fatal : ℕ
fatal = 7

pub data MatchMode : Type 0 where
  exact prefix suffix inside : MatchMode

pub record LoggingRule : Type 0 where
  pub text : Bytes
  pub mode : MatchMode
  pub level : ℕ
  pub enable : Bool

unfoldable pub matches_category : LoggingRule → Bytes → Bool
unfolding ends_with contains
matches_category rule name = elim rule.mode [
  | prefix ↦ starts_with name rule.text
  | suffix ↦ ends_with name rule.text
  | inside ↦ contains name rule.text
  | exact ↦ equal name rule.text
]

abbrev pub applies_to_level : LoggingRule → ℕ → Bool
applies_to_level rule lv = rule.level == 0 || rule.level == lv

unfoldable pub level_from_token : Bytes → ℕ
level_from_token token =
    if equal token (codes "trace")
    then trace
    else if equal token (codes "debug")
    then debug
    else if equal token (codes "success")
    then success
    else if equal token (codes "info") || equal token (codes "information")
    then information
    else if equal token (codes "warning")
    then warning
    else if equal token (codes "critical")
    then critical
    else if equal token (codes "fatal")
    then fatal
    else 0

unfoldable pub parse_bool : Bytes → Option Bool
unfolding to_lower
parse_bool value =
    let v = to_lower value in
    if equal v (codes "true") || equal v (codes "1")
    then some true
    else if equal v (codes "false") || equal v (codes "0")
    then some false
    else none

-- `pattern.rfind(c)`
unfoldable pub rfind : ℕ → Bytes → Option ℕ
rfind c [] = none
rfind c (x ∷ s) = elim (rfind c s) [
  | some n ↦ some (suc n)
  | none ↦ if x == c then some 0 else none
]

-- The level that a trailing `.<token>` selects, and the pattern before it.
unfoldable pub level_of : Bytes → ℕ × Bytes
unfolding rfind level_from_token
level_of pattern = elim (rfind b'.' pattern) [
  | none ↦ (0, pattern)
  | some dot ↦
      let level = level_from_token (drop (dot + 1) pattern) in
      if level == 0 then (0, pattern) else (level, take dot pattern)
]

unfoldable pub fold_mode : Bool → Bool → MatchMode
fold_mode left right =
    if left && right then inside else if left then suffix else if right then prefix else exact

-- The pattern with a wildcard stripped at each end that has one.
unfoldable pub strip_stars : Bool → Bool → Bytes → Bytes
strip_stars left right pattern =
    let p = if left then drop_front pattern 1 else pattern in
    if right && not (is_nil p) then drop_back p 1 else p

abbrev is_exact : MatchMode → Bool
is_exact exact = true
is_exact _ = false

unfoldable pub rule_of : Bytes → Bool → Option LoggingRule
unfolding level_of fold_mode strip_stars starts_with_char ends_with_char
rule_of whole enable =
    let level = (level_of whole).0 in
    let pattern = (level_of whole).1 in
    let left = starts_with_char pattern b'*' in
    let right = ends_with_char pattern b'*' in
    let text = strip_stars left right pattern in
    let mode = fold_mode left right in
    if contains_char text b'*'
    then none
    else if is_exact mode && is_nil text
    then none
    else some (record { text = text; mode = mode; level = level; enable = enable })

unfoldable pub parse_rule : Bytes → Option LoggingRule
unfolding rule_of
parse_rule line = elim (find line (b'=' ∷ [])) [
  | none ↦ none
  | some eq ↦
      let pattern = trim (take eq line) blanks in
      elim (parse_bool (trim (drop (eq + 1) line) blanks)) [
        | none ↦ none
        | some value ↦ if is_nil pattern then none else rule_of pattern value
      ]
]

-- The inner loop of `parseRules`.
unfoldable pub parse_entries : List Bytes → List LoggingRule
unfolding parse_rule
parse_entries [] = []
parse_entries (raw ∷ rest) =
    let entry = trim raw blanks in
    let later = parse_entries rest in
    if is_nil entry || starts_with_char entry b'#'
    then later
    else elim (parse_rule entry) [ none ↦ later | some rule ↦ rule ∷ later ]

-- The outer loop, with the rules so far; `none` is a split that does not end.
unfoldable pub parse_lines : List Bytes → List LoggingRule → Option (List LoggingRule)
unfolding parse_entries split
parse_lines [] result = some result
parse_lines (line ∷ lines) result =
    split line (b';' ∷ []) >>=? λ entries. parse_lines lines (result ++ parse_entries entries)

unfoldable pub parse_rules : Bytes → Option (List LoggingRule)
unfolding parse_lines
parse_rules rules = split rules (10 ∷ []) >>=? λ lines. parse_lines lines []

pub record LogCategory : Type 0 where
  pub name : Option Bytes
  pub level_enabled : List Bool

abbrev pub is_level_enabled : LogCategory → ℕ → Bool
is_level_enabled category level = get_or category.level_enabled level false

abbrev pub set_level_enabled : LogCategory → ℕ → Bool → LogCategory
set_level_enabled category level on = record category {
  level_enabled = set category.level_enabled level on;
}

abbrev pub levels : List ℕ
levels = trace ∷ debug ∷ success ∷ information ∷ warning ∷ critical ∷ fatal ∷ []

abbrev pub name_or_empty : LogCategory → Bytes
name_or_empty category = elim category.name [ none ↦ [] | some n ↦ n ]

-- `for (level = Trace; level <= Fatal; ++level)` with the test inside
unfoldable pub set_levels : (ℕ → Bool) → Bool → List ℕ → LogCategory → LogCategory
set_levels applies on [] category = category
set_levels applies on (level ∷ ls) category =
    set_levels applies on ls
      (if applies level then set_level_enabled category level on else category)

unfoldable pub apply_rules : List LoggingRule → Bytes → LogCategory → LogCategory
unfolding matches_category set_levels
apply_rules [] name category = category
apply_rules (rule ∷ rules) name category = apply_rules rules name (
    if matches_category rule name
    then set_levels (applies_to_level rule) rule.enable levels category
    else category)

unfoldable pub default_log_category_filter : List LoggingRule → LogCategory → LogCategory
unfolding apply_rules set_levels
default_log_category_filter rules category =
    apply_rules rules (name_or_empty category) (set_levels (λ level. true) true levels category)

pub record LogRegistry : Type 0 where
  pub filter_rules : Bytes
  pub rules : List LoggingRule
  pub category_filter : Option (LogCategory → LogCategory)
  pub categories : List (ℕ × LogCategory)

abbrev pub new_registry : LogRegistry
new_registry = record { filter_rules = []; rules = []; category_filter = none; categories = [] }

-- The installed filter, `none` for the default one.
abbrev pub run_filter : LogRegistry → LogCategory → LogCategory
run_filter reg category = elim reg.category_filter [
  | none ↦ default_log_category_filter reg.rules category
  | some filter ↦ filter category
]

unfoldable pub update_filter_rules : LogRegistry → LogRegistry
update_filter_rules reg = record reg {
  categories = map (λ (e : ℕ × LogCategory). (e.0, run_filter reg e.1)) reg.categories;
}

unfoldable pub erase : ℕ → List (ℕ × LogCategory) → List (ℕ × LogCategory)
erase a [] = []
erase a (e ∷ es) = let rest = erase a es in if e.0 == a then rest else e ∷ rest

-- The constructor: all eight bytes of the flags are set, then the filter runs.
unfoldable pub construct : LogRegistry → ℕ → Option Bytes → LogRegistry
unfolding erase
construct reg address name =
    let category : LogCategory = record { name = name; level_enabled = replicate 8 true } in
    record reg { categories = (address, run_filter reg category) ∷ erase address reg.categories }

-- The destructor.
unfoldable pub destroy : LogRegistry → ℕ → LogRegistry
unfolding erase
destroy reg address = record reg { categories = erase address reg.categories }

unfoldable pub set_log_filter : LogRegistry → Option (LogCategory → LogCategory) → LogRegistry
unfolding update_filter_rules
set_log_filter reg filter = update_filter_rules (record reg { category_filter = filter })

unfoldable pub set_filter_rules : LogRegistry → Bytes → Option LogRegistry
unfolding update_filter_rules parse_rules
set_filter_rules reg rules = parse_rules rules >>=? λ parsed.
    some (update_filter_rules (record reg { rules = parsed; filter_rules = rules }))

-- Where the default sink writes a record.
pub data Sink : Type 0 where
  dropped to_stdout to_stderr assertion_failed : Sink

unfoldable pub default_log_callback : ℕ → Sink
default_log_callback level =
    if ltb level success
    then dropped
    else if level == success
    then to_stdout
    else if level == warning || level == critical || level == fatal
    then to_stderr
    else assertion_failed

-- `LogCategory::log` with the default sink: nothing is handed on when the level is off, and a fatal
-- record ends the process.
unfoldable pub log : LogCategory → ℕ → Option Sink × Bool
unfolding default_log_callback
log category level =
    if not (is_level_enabled category level)
    then (none, false)
    else (some (default_log_callback level), level == fatal)
