-- ===== src/Logging/Registry.antt =====
-- The registry of the log categories of src/libs/Support/Logging.cpp over its calls: whatever the
-- calls were, the categories follow the rules in force.
use lorelei.Base.{
  ℕ, zero, suc, ◌≤◌, ◌≡◌, refl, ap, ◌∙◌, sym, Bool, true, List, [], ◌∷◌, ◌++◌, map, Option, none,
  some, Bytes, All, length, get_elem?, subst, replicate, ◌==◌, Bool-cases, inl, inr,
}
use mathlib.Core.Option.{some-injective}
use lorelei.Str.Split.RoundTrip.{split-Tokens}
use lorelei.Logging.{
  LoggingRule, LogCategory, LogRegistry, matches_category, applies_to_level, is_level_enabled,
  set_levels, apply_rules, levels, trace, fatal, default_log_category_filter, name_or_empty,
  new_registry, run_filter, update_filter_rules, erase, construct, destroy, set_log_filter,
  set_filter_rules, parse_rules, parse_lines, parse_entries,
}
use lorelei.Logging.Rules.{
  last_rule, verdict, length-set_levels, default_log_category_filter-last_rule,
}

parse_lines-some :
    (lines : List Bytes) (result : List LoggingRule)
    → (rules : List LoggingRule) × (parse_lines lines result ≡ some rules)
unfolding parse_lines
parse_lines-some [] result = (result, refl)
parse_lines-some (line ∷ lines) result =
    let (entries, e, t) = split-Tokens line (b';' ∷ []) (λ h. cc) in
    let (rules, f) = parse_lines-some lines (result ++ parse_entries entries) in
    (rules, rw (e, parse_lines) f)

parse_rules-some : (text : Bytes) → (rules : List LoggingRule) × (parse_rules text ≡ some rules)
unfolding parse_rules
parse_rules-some text =
    let (lines, e, t) = split-Tokens text (10 ∷ []) (λ h. cc) in
    let (rules, f) = parse_lines-some lines [] in (rules, rw (e, parse_rules) f)

-- setFilterRules returns for every text, with what parseRules makes of it in force and the
-- filter run over every category.
pub set_filter_rules-some :
    (reg : LogRegistry) (text : Bytes)
    → (rules : List LoggingRule) × (parse_rules text ≡ some rules)
      × (set_filter_rules reg text
          ≡ some (update_filter_rules (record reg { rules = rules; filter_rules = text })))
unfolding set_filter_rules
set_filter_rules-some reg text =
    let (rules, e) = parse_rules-some text in (rules, e, rw (e, set_filter_rules) refl)

-- The flags of a category are what the rules say.
abbrev pub Follows : List LoggingRule → LogCategory → Type 0
Follows rules category =
    (level : ℕ)
    → trace ≤ level
    → level ≤ fatal
    → is_level_enabled category level
      ≡ verdict true (last_rule rules (name_or_empty category) level)

abbrev pub HasFlags : LogCategory → Type 0
HasFlags category = length category.level_enabled ≡ 8

abbrev pub InForceAt : LogRegistry → ℕ × LogCategory → Type 0
InForceAt reg e = HasFlags e.1 × (reg.category_filter ≡ none → Follows reg.rules e.1)

-- Under the default filter every registered category follows the rules.
abbrev pub InForce : LogRegistry → Type 0
InForce reg = All (InForceAt reg) reg.categories

-- A custom filter writes flags in place: it leaves eight of them.
abbrev pub KeepsFlags : Option (LogCategory → LogCategory) → Type 0
KeepsFlags none = Unit
KeepsFlags (some filter) = (c : LogCategory) → HasFlags c → HasFlags (filter c)

-- The registries that calls lead to.
pub data Reachable : LogRegistry → Type 0 where
  started : Reachable new_registry
  constructed :
      (reg : LogRegistry) (address : ℕ) (name : Option Bytes)
      → Reachable reg
      → Reachable (construct reg address name)
  destroyed : (reg : LogRegistry) (address : ℕ) → Reachable reg → Reachable (destroy reg address)
  filter_set :
      (reg : LogRegistry) (filter : Option (LogCategory → LogCategory))
      → KeepsFlags filter
      → Reachable reg
      → Reachable (set_log_filter reg filter)
  rules_set :
      (reg reg' : LogRegistry) (text : Bytes)
      → set_filter_rules reg text ≡ some reg'
      → Reachable reg
      → Reachable reg'

name-set_levels :
    (p : ℕ → Bool) (on : Bool) (ls : List ℕ) (category : LogCategory)
    → (set_levels p on ls category).name ≡ category.name
unfolding set_levels
name-set_levels p on [] category = refl
name-set_levels p on (l ∷ ls) category = elim (Bool-cases (p l)) [
  | inl e ↦ rw (e, set_levels) (name-set_levels p on ls _)
  | inr e ↦ rw (e, set_levels) (name-set_levels p on ls category)
]

name-apply_rules :
    (rules : List LoggingRule) (name : Bytes) (category : LogCategory)
    → (apply_rules rules name category).name ≡ category.name
unfolding apply_rules
name-apply_rules [] name category = refl
name-apply_rules (rule ∷ rules) name category = elim (Bool-cases (matches_category rule name)) [
  | inl e ↦
      rw (e, apply_rules)
        (name-apply_rules rules name _
          ∙ name-set_levels (applies_to_level rule) rule.enable levels category)
  | inr e ↦ rw (e, apply_rules) (name-apply_rules rules name category)
]

length-apply_rules :
    (rules : List LoggingRule) (name : Bytes) (category : LogCategory)
    → length (apply_rules rules name category).level_enabled ≡ length category.level_enabled
unfolding apply_rules
length-apply_rules [] name category = refl
length-apply_rules (rule ∷ rules) name category = elim (Bool-cases (matches_category rule name)) [
  | inl e ↦
      rw (e, apply_rules)
        (length-apply_rules rules name _
          ∙ length-set_levels (applies_to_level rule) rule.enable levels category)
  | inr e ↦ rw (e, apply_rules) (length-apply_rules rules name category)
]

default_filter-Follows :
    (rules : List LoggingRule) (category : LogCategory)
    → HasFlags category
    → HasFlags (default_log_category_filter rules category)
      × Follows rules (default_log_category_filter rules category)
unfolding default_log_category_filter
default_filter-Follows rules category n =
    let base = set_levels (λ l. true) true levels category in
    let name = name_or_empty category in
    let same : (default_log_category_filter rules category).name ≡ category.name =
      name-apply_rules rules name base ∙ name-set_levels (λ l. true) true levels category in
    (
      length-apply_rules rules name base ∙ length-set_levels (λ l. true) true levels category ∙ n,
      λ level lo hi.
          default_log_category_filter-last_rule rules category level lo hi n
          ∙ ap
              (λ (o : Option Bytes).
                verdict true (last_rule rules (elim o [ none ↦ [] | some k ↦ k ]) level))
              (sym same),
    )

-- A category that the filter of the registry has run on.
run_filter-InForceAt :
    (reg : LogRegistry) (filter : Option (LogCategory → LogCategory)) (address : ℕ)
    (category : LogCategory)
    → reg.category_filter ≡ filter
    → KeepsFlags filter
    → HasFlags category
    → InForceAt reg (address, run_filter reg category)
run_filter-InForceAt reg none address category e k n =
    let f = default_filter-Follows reg.rules category n in rw e (f.0, λ h. f.1)
run_filter-InForceAt reg (some filter) address category e k n = rw e (k category n, λ h. cc)

update-InForce :
    (reg : LogRegistry) (es : List (ℕ × LogCategory))
    → KeepsFlags reg.category_filter
    → All (λ (e : ℕ × LogCategory). HasFlags e.1) es
    → All (InForceAt reg) (map (λ (e : ℕ × LogCategory). (e.0, run_filter reg e.1)) es)
update-InForce reg [] k h = tt
update-InForce reg (e ∷ es) k h =
    (run_filter-InForceAt reg reg.category_filter e.0 e.1 refl k h.0, update-InForce reg es k h.1)

flags_of :
    (reg : LogRegistry) (es : List (ℕ × LogCategory))
    → All (InForceAt reg) es
    → All (λ (e : ℕ × LogCategory). HasFlags e.1) es
flags_of reg [] h = tt
flags_of reg (e ∷ es) h = (h.0.0, flags_of reg es h.1)

erase-All :
    (reg : LogRegistry) (address : ℕ) (es : List (ℕ × LogCategory))
    → All (InForceAt reg) es
    → All (InForceAt reg) (erase address es)
unfolding erase
erase-All reg address [] h = tt
erase-All reg address (e ∷ es) h = elim (Bool-cases (e.0 == address)) [
  | inl same ↦ rw (same, erase) (erase-All reg address es h.1)
  | inr other ↦ rw (other, erase) (h.0, erase-All reg address es h.1)
]

Reachable-both : (reg : LogRegistry) → Reachable reg → KeepsFlags reg.category_filter × InForce reg
unfolding construct destroy set_log_filter update_filter_rules
Reachable-both _ started = (tt, tt)
Reachable-both _ (constructed reg address name r) =
    let (k, i) = Reachable-both reg r in
    (
      k,
      (
        run_filter-InForceAt reg reg.category_filter address
            (record { name = name; level_enabled = replicate 8 true }) refl k refl,
        erase-All reg address reg.categories i,
      ),
    )
Reachable-both _ (destroyed reg address r) =
    let (k, i) = Reachable-both reg r in (k, erase-All reg address reg.categories i)
Reachable-both _ (filter_set reg filter k r) =
    let (_, i) = Reachable-both reg r in
    (
      k,
      update-InForce (record reg { category_filter = filter }) reg.categories k
          (flags_of reg reg.categories i),
    )
Reachable-both _ (rules_set reg reg' text e r) =
    let (k, i) = Reachable-both reg r in
    let (rules, p, s) = set_filter_rules-some reg text in
    let set = record reg { rules = rules; filter_rules = text } in
    rw (some-injective _ _ (sym e ∙ s))
      (k, update-InForce set reg.categories k (flags_of reg reg.categories i))

All-get_elem? :
    (reg : LogRegistry) (es : List (ℕ × LogCategory)) (i : ℕ) (e : ℕ × LogCategory)
    → All (InForceAt reg) es
    → get_elem? es i ≡ some e
    → InForceAt reg e
All-get_elem? reg [] i e h k = cc
All-get_elem? reg (x ∷ es) zero e h k = subst (λ y. InForceAt reg y) (some-injective x e k) h.0
All-get_elem? reg (x ∷ es) (suc i) e h k = All-get_elem? reg es i e h.1 k

-- After any calls of constructors, destructors, setLogFilter and setFilterRules, in any order,
-- while the default filter is installed, the flag of a registered category for a level from
-- trace to fatal is what the last rule in force says that applies, and true without such a rule.
pub Reachable-follows :
    (reg : LogRegistry) (i address : ℕ) (category : LogCategory) (level : ℕ)
    → Reachable reg
    → reg.category_filter ≡ none
    → get_elem? reg.categories i ≡ some (address, category)
    → trace ≤ level
    → level ≤ fatal
    → is_level_enabled category level
      ≡ verdict true (last_rule reg.rules (name_or_empty category) level)
Reachable-follows reg i address category level r default e lo hi =
    (All-get_elem? reg reg.categories i (address, category) (Reachable-both reg r).1 e).1 default
      level lo hi
