-- ===== src/Tlc/Callbacks/Config.antt =====
-- `collectConfigFunctionSection`, `collectConfigCallbackSection` and `collectConfigSeeds` of
-- src/tools/TLC/Commands/Stat.cpp: the names of the configuration as seeds of the walk. What was
-- matched of the translation unit is a parameter.
pub mod Same
pub mod Sections
use lorelei.Base.{
  ℕ, Bool, true, false, List, [], ◌∷◌, ◌++◌, Option, none, some, Bytes, codes, ◌==◌, if◌then◌else◌,
  Run, ok, ◌>>=◌,
}
use lorelei.Ordered.{Map, find, add}
use lorelei.Config.Section.{Section, keys}
use lorelei.Config.File.{ConfigFile, get}
use lorelei.Tlc.Summary.{
  ManifestSummary, ProcDirection, guest_to_host, host_to_guest, change, add_function,
}
use lorelei.Tlc.Callbacks.{TypeSystem, collect_callback_signatures}

module _ (types : TypeSystem) where
  open types use {QualType, get_type_string}

  -- a function: the pointer type of its canonical type, and where it is declared
  pub record FunctionDecl : Type 0 where
    pub pointer_type : QualType
    pub location : Bytes

  -- `m_functionMap`, `m_procFnDescDataMap`, `m_functionPointerTypedefTypeMap` and
  -- `m_namedCallbackAliasMap`
  pub record Matches : Type 0 where
    pub functions : Map FunctionDecl
    pub overlays : Map (Option QualType)
    pub typedefs : Map QualType
    pub aliases : Map Bytes

  module _ (unit : Matches) (fuel : ℕ) where
    -- the walk, for what it records
    unfoldable pub collect : QualType → Bytes → Bytes → Bool → ManifestSummary → Run ManifestSummary
    unfolding collect_callback_signatures
    collect seed origin preferred include_seed s =
        collect_callback_signatures types unit.aliases fuel seed origin preferred include_seed s
        >>= λ r. ok r.1

    abbrev pub config_origin : Bytes → Bytes → Bytes
    config_origin section name = ((codes "Config[" ++ section) ++ codes "]:") ++ name

    unfoldable pub collect_overlay : Bytes → Bytes → ManifestSummary → Run ManifestSummary
    unfolding collect
    collect_overlay section name s = elim (find name unit.overlays) [
      | none ↦ ok s
      | some overlay ↦ elim overlay [
        | none ↦ ok s
        | some type ↦ collect type (config_origin section name ++ codes "@overlay") [] false s
      ]
    ]

    -- A name of the section is a function that was matched, or is missing.
    unfoldable pub collect_name :
        Bytes → ProcDirection → Bytes → ManifestSummary → Run ManifestSummary
    unfolding collect collect_overlay add_function
    collect_name section direction name s = elim (find name unit.functions) [
      | none ↦ ok (record s { missing_functions = change direction (add name) s.missing_functions })
      | some fd ↦
          collect fd.pointer_type (config_origin section name) [] false
            (add_function direction name fd.location s)
          >>= collect_overlay section name
    ]

    unfoldable pub collect_names :
        Bytes → ProcDirection → List Bytes → ManifestSummary → Run ManifestSummary
    unfolding collect_name
    collect_names section direction [] s = ok s
    collect_names section direction (name ∷ names) s =
        collect_name section direction name s >>= collect_names section direction names

    unfoldable pub collect_config_function_section :
        ConfigFile → Bytes → ProcDirection → ManifestSummary → Run ManifestSummary
    unfolding collect_names get
    collect_config_function_section config section direction s =
        get config section
        >>= elim [ none ↦ ok s | some found ↦ collect_names section direction (keys found) s ]

    -- `&name` of the section stands for the type of a function
    unfoldable pub collect_function_token : Bytes → Bytes → ManifestSummary → Run ManifestSummary
    unfolding collect
    collect_function_token token name s = elim (find name unit.functions) [
      | none ↦ ok s
      | some fd ↦
          let alias : Bytes = elim (find (get_type_string fd.pointer_type) unit.aliases) [
            | none ↦ codes "PFN_AUTO_" ++ name
            | some known ↦ known
          ] in
          collect fd.pointer_type (config_origin (codes "Callback") token) alias true s
    ]

    unfoldable pub collect_token : Bytes → ManifestSummary → Run ManifestSummary
    unfolding collect_function_token
    collect_token [] s = ok s
    collect_token (c ∷ name) s =
        if c == b'&'
        then collect_function_token (c ∷ name) name s
        else elim (find (c ∷ name) unit.typedefs) [
          | none ↦ ok s
          | some type ↦ collect type (config_origin (codes "Callback") (c ∷ name)) (c ∷ name) true s
        ]

    unfoldable pub collect_tokens : List Bytes → ManifestSummary → Run ManifestSummary
    unfolding collect_token
    collect_tokens [] s = ok s
    collect_tokens (token ∷ tokens) s = collect_token token s >>= collect_tokens tokens

    unfoldable pub collect_config_callback_section :
        ConfigFile → ManifestSummary → Run ManifestSummary
    unfolding collect_tokens get
    collect_config_callback_section config s =
        get config (codes "Callback")
        >>= elim [ none ↦ ok s | some found ↦ collect_tokens (keys found) s ]

    unfoldable pub collect_config_seeds : ConfigFile → ManifestSummary → Run ManifestSummary
    unfolding collect_config_function_section collect_config_callback_section
    collect_config_seeds config s =
        collect_config_function_section config (codes "Function") guest_to_host s >>= λ s'.
        collect_config_function_section config (codes "Guest Function") host_to_guest s'
        >>= collect_config_callback_section config
