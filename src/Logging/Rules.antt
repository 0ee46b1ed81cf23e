-- ===== src/Logging/Rules.antt =====
-- What the default filter of src/libs/Support/Logging.cpp makes of a list of rules, against a
-- search for the last rule that applies.
use lorelei.Base.{
  ℕ, zero, suc, ◌≤◌, ◌<◌, ◌≡◌, refl, ap, ◌∙◌, sym, Bool, true, false, ◌&&◌, List, [], ◌∷◌, Option,
  none, some, Bytes, has_byte, length, get_or, set, length-set, ◌==◌, if◌then◌else◌, Bool-cases,
  Option-cases, inl, inr, arith,
}
use lorelei.Logging.{
  LoggingRule, LogCategory, matches_category, applies_to_level, is_level_enabled, set_level_enabled,
  set_levels, apply_rules, levels, default_log_category_filter, name_or_empty, fatal, trace,
}

-- Whether a rule says something of the category and the level.
abbrev pub applies : Bytes → ℕ → LoggingRule → Bool
applies name level rule = matches_category rule name && applies_to_level rule level

-- The last rule that applies.
unfoldable pub last_rule : List LoggingRule → Bytes → ℕ → Option LoggingRule
last_rule [] name level = none
last_rule (rule ∷ rules) name level = elim (last_rule rules name level) [
  | some r ↦ some r
  | none ↦ if applies name level rule then some rule else none
]

-- What it says, and true when there is none.
abbrev pub verdict : Bool → Option LoggingRule → Bool
verdict base none = base
verdict base (some rule) = rule.enable

get_or-set {ℓ} :
    {A : Type ℓ} (xs : List A) (i j : ℕ) (v d : A)
    → j < length xs
    → get_or (set xs i v) j d ≡ (if i == j then v else get_or xs j d)
get_or-set [] i j v d h = absurd (omega arith)
get_or-set (x ∷ xs) zero zero v d h = refl
get_or-set (x ∷ xs) zero (suc j) v d h = ground arith
get_or-set (x ∷ xs) (suc i) zero v d h = ground arith
get_or-set (x ∷ xs) (suc i) (suc j) v d h = get_or-set xs i j v d (omega arith) ∙ ground arith

pub length-set_levels :
    (p : ℕ → Bool) (on : Bool) (ls : List ℕ) (category : LogCategory)
    → length (set_levels p on ls category).level_enabled ≡ length category.level_enabled
unfolding set_levels
length-set_levels p on [] category = refl
length-set_levels p on (l ∷ ls) category = elim (Bool-cases (p l)) [
  | inl e ↦
      rw (e, set_levels)
        (length-set_levels p on ls (set_level_enabled category l on)
          ∙ length-set category.level_enabled l on)
  | inr e ↦ rw (e, set_levels) (length-set_levels p on ls category)
]

set_levels-flag :
    (p : ℕ → Bool) (on : Bool) (ls : List ℕ) (category : LogCategory) (level : ℕ)
    → level < length category.level_enabled
    → is_level_enabled (set_levels p on ls category) level
      ≡ (if has_byte level ls && p level then on else is_level_enabled category level)
unfolding set_levels has_byte
set_levels-flag p on [] category level lt = refl
set_levels-flag p on (l ∷ ls) category level lt = elim (Bool-cases (p l)) [
  | inl e ↦
      let flags = category.level_enabled in
      let rest =
        set_levels-flag p on ls (set_level_enabled category l on) level
          (rw (length-set flags l on) lt) in
      rw (e, set_levels)
        (rest
          ∙ rw (get_or-set flags l level on false lt) (elim (Bool-cases (l == level)) [
            | inl same ↦
                let ll : l ≡ level = ground arith in
                let pl : p level ≡ true = ap p (sym ll) ∙ e in ground arith
            | inr other ↦ ground arith
          ]))
  | inr e ↦
      rw (e, set_levels)
        (set_levels-flag p on ls category level lt ∙ elim (Bool-cases (l == level)) [
          | inl same ↦
              let ll : l ≡ level = ground arith in
              let pl : p level ≡ false = ap p (sym ll) ∙ e in ground arith
          | inr other ↦ ground arith
        ])
]

levels-has_byte : (level : ℕ) → trace ≤ level → level ≤ fatal → has_byte level levels ≡ true
unfolding has_byte
levels-has_byte level lo hi = ground arith

apply_rules-last_rule :
    (rules : List LoggingRule) (name : Bytes) (category : LogCategory) (level : ℕ)
    → trace ≤ level
    → level ≤ fatal
    → 8 ≤ length category.level_enabled
    → is_level_enabled (apply_rules rules name category) level
      ≡ verdict (is_level_enabled category level) (last_rule rules name level)
unfolding apply_rules last_rule
apply_rules-last_rule [] name category level lo hi n = refl
apply_rules-last_rule (rule ∷ rules) name category level lo hi n =
    elim (Bool-cases (matches_category rule name)) [
      | inl e ↦
          let p = applies_to_level rule in
          let next = set_levels p rule.enable levels category in
          let rest =
            apply_rules-last_rule rules name next level lo hi
              (rw (length-set_levels p rule.enable levels category) n) in
          let flag = set_levels-flag p rule.enable levels category level (omega arith) in
          rw (e, apply_rules)
            (rest ∙ elim (Option-cases (last_rule rules name level)) [
              | inl f ↦ rw (f, last_rule, e, flag, levels-has_byte level lo hi) (ground arith)
              | inr (r, f) ↦ rw (f, last_rule) refl
            ])
      | inr e ↦
          rw (e, apply_rules)
            (apply_rules-last_rule rules name category level lo hi n
              ∙ elim (Option-cases (last_rule rules name level)) [
                | inl f ↦ rw (f, last_rule, e) refl
                | inr (r, f) ↦ rw (f, last_rule) refl
              ])
    ]

-- For a category with its eight flags and a level from trace to fatal, the default filter sets
-- the flag to what the last rule says that matches the category and applies to the level, and to
-- true when there is no such rule.
pub default_log_category_filter-last_rule :
    (rules : List LoggingRule) (category : LogCategory) (level : ℕ)
    → trace ≤ level
    → level ≤ fatal
    → length category.level_enabled ≡ 8
    → is_level_enabled (default_log_category_filter rules category) level
      ≡ verdict true (last_rule rules (name_or_empty category) level)
unfolding default_log_category_filter
default_log_category_filter-last_rule rules category level lo hi n =
    let base = set_levels (λ l. true) true levels category in
    let flag = set_levels-flag (λ l. true) true levels category level (omega arith) in
    apply_rules-last_rule rules (name_or_empty category) base level lo hi
      (omega (arith, length-set_levels (λ l. true) true levels category))
    ∙ rw (flag, levels-has_byte level lo hi) refl
