-- ===== src/Logging/Tests.antt =====
-- The properties of the log filter at concrete rules and categories.
use lorelei.Base.{
  has_byte, has_prefix, find, equal, ◌++◌, ◌≡◌, refl, true, false, [], ◌∷◌, some, codes, replicate,
  arith,
}
use lorelei.Str.Trim.{trim, to_lower}
use lorelei.Logging.Parse.{with_level, debug_token, parse_rule-source}
use lorelei.Logging.{
  parse_rule, parse_bool, rfind, LoggingRule, exact, prefix, suffix, LogCategory, LogRegistry,
  debug, is_level_enabled, name_or_empty, default_log_category_filter, new_registry, construct,
}
use lorelei.Logging.Rules.{last_rule, verdict, default_log_category_filter-last_rule}
use lorelei.Logging.Registry.{started, constructed, Reachable-follows}

abbrev quiet : LoggingRule
quiet = record { text = codes "lore"; mode = prefix; level = 0; enable = false }

abbrev loud : LoggingRule
loud = record { text = codes "lore.io"; mode = exact; level = 2; enable = true }

abbrev io : LogCategory
io = record { name = some (codes "lore.io"); level_enabled = replicate 8 true }

default_log_category_filter-last_rule_example :
    is_level_enabled (default_log_category_filter (quiet ∷ loud ∷ []) io) debug
    ≡ verdict true (last_rule (quiet ∷ loud ∷ []) (codes "lore.io") debug)
default_log_category_filter-last_rule_example =
    default_log_category_filter-last_rule (quiet ∷ loud ∷ []) io debug (omega arith) (omega arith)
      refl

abbrev one_category : LogRegistry
one_category = construct new_registry 7 (some (codes "lore.io"))

Reachable-follows_example :
    is_level_enabled (default_log_category_filter [] io) debug
    ≡ verdict true (last_rule [] (name_or_empty (default_log_category_filter [] io)) debug)
unfolding construct
Reachable-follows_example =
    Reachable-follows one_category 0 7 (default_log_category_filter [] io) debug
      (constructed new_registry 7 (some (codes "lore.io")) started) refl refl (omega arith)
      (omega arith)

parse_rule-source_example :
    parse_rule (codes "lore.*.debug " ++ b'=' ∷ codes " False")
    ≡ some (record { text = codes "lore."; mode = prefix; level = 2; enable = false })
unfolding has_byte trim parse_bool equal to_lower
parse_rule-source_example =
    parse_rule-source prefix b'l' (codes "ore.") (codes ".debug") 2 false (codes "lore.*.debug ")
      (codes " False") refl (with_level debug_token) refl refl refl

suffix_rule :
    parse_rule (codes "*io=1")
    ≡ some (record { text = codes "io"; mode = suffix; level = 0; enable = true })
unfolding parse_rule find has_prefix trim parse_bool equal to_lower rfind has_byte
suffix_rule = refl
