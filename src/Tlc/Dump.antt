-- ===== src/Tlc/Dump.antt =====
-- The state of `dump` and what fills it, of src/tools/TLC/Commands/Dump.cpp: the functions that the
-- configuration names, and where the sources declare them. A declaration comes with its path made
-- absolute and normal, `none` if it has no file.
mod Tests
pub mod Fallback
pub mod Output
use lorelei.Base.{
  ℕ, zero, suc, Bool, true, false, not, ◌||◌, List, [], ◌∷◌, ◌++◌, Option, none, some, Bytes, codes,
  is_nil, is_some, equal, ◌==◌, if◌then◌else◌, Run, ok, ◌>>=◌,
}
use lorelei.Ordered.{Map, Set, find, update, insert, add}
use lorelei.Str.Trim.{to_lower}
use lorelei.Config.Section.{Section, keys}
use lorelei.Config.File.{ConfigFile, get}

pub record RequestedFunction : Type 0 where
  pub sections : Set

pub record ResolvedFunction : Type 0 where
  pub header_paths : Set
  pub non_header_paths : Set

pub record CapturedType : Type 0 where
  pub original_text : Bytes
  pub pointer_like : Bool
  pub header_paths : Set
  pub non_header_paths : Set
  pub dependency_names : Set

pub record CapturedParam : Type 0 where
  pub name : Bytes
  pub type : CapturedType

pub record CapturedFunction : Type 0 where
  pub source_path : Bytes
  pub source_location : Bytes
  pub return_type : CapturedType
  pub params : List CapturedParam
  pub variadic : Bool

pub record GlobalContext : Type 0 where
  pub config_path : Bytes
  pub requested_functions : Map RequestedFunction
  pub resolved_functions : Map ResolvedFunction
  pub captured_functions : Map CapturedFunction

-- one of the texts
abbrev pub any_equal : Bytes → List Bytes → Bool
any_equal s [] = false
any_equal s (t ∷ ts) = equal s t || any_equal s ts

abbrev pub header_extensions : List Bytes
header_extensions =
    codes ".h"
    ∷ codes ".hh"
    ∷ codes ".hpp"
    ∷ codes ".hxx"
    ∷ codes ".h++"
    ∷ codes ".inc"
    ∷ codes ".inl"
    ∷ codes ".tcc"
    ∷ []

abbrev pub source_extensions : List Bytes
source_extensions =
    codes ".c"
    ∷ codes ".cc"
    ∷ codes ".cpp"
    ∷ codes ".cxx"
    ∷ codes ".c++"
    ∷ codes ".m"
    ∷ codes ".mm"
    ∷ []

-- `escapeForInclude`
unfoldable pub escape_for_include : Bytes → Bytes
escape_for_include [] = []
escape_for_include (ch ∷ path) =
    let rest = escape_for_include path in
    if ch == 0x5c || ch == 0x22 then 0x5c ∷ ch ∷ rest else ch ∷ rest

-- `appendReason`
unfoldable pub append_reason : Bytes → Bytes → Bytes
append_reason text reason = (if is_nil text then text else text ++ codes "; ") ++ reason

-- `requestedFunctions[name].sections.insert(section)`
abbrev pub request : Bytes → Option RequestedFunction → RequestedFunction
request section none = record { sections = add section [] }
request section (some f) = record { sections = add section f.sections }

unfoldable pub request_names : Bytes → List Bytes → Map RequestedFunction → Map RequestedFunction
request_names section [] requested = requested
request_names section (name ∷ names) requested =
    request_names section names
      (if is_nil name then requested else update name (request section) requested)

unfoldable pub collect_requested_functions_from_section :
    ConfigFile → Bytes → Map RequestedFunction → Run (Map RequestedFunction)
unfolding request_names get
collect_requested_functions_from_section config section requested =
    get config section
    >>= elim [ none ↦ ok requested | some s ↦ ok (request_names section (keys s) requested) ]

unfoldable pub load_requested_functions : ConfigFile → GlobalContext → Run GlobalContext
unfolding collect_requested_functions_from_section
load_requested_functions config ctx =
    collect_requested_functions_from_section config (codes "Function") [] >>= λ first.
    collect_requested_functions_from_section config (codes "Guest Function") first >>= λ requested.
    ok (record ctx { requested_functions = requested })

-- What a type is built of, its sugar peeled off: a type without declarations, one that names a
-- declaration, a pointer, reference or array, and a function.
mutual
  pub data TypeTree : Type 0 where
    leaf : TypeTree
    named_type : Bytes → Option Bytes → TypeTree
    pointee : TypeTree → TypeTree
    function_type : TypeTree → TypeTrees → TypeTree

  pub data TypeTrees : Type 0 where
    nil : TypeTrees
    cons : TypeTree → TypeTrees → TypeTrees

-- `llvm::sys::path::extension` is a parameter.
module _ (extension : Bytes → Bytes) where
  unfoldable pub is_likely_header_path : Bytes → Bool
  is_likely_header_path path = any_equal (to_lower (extension path)) header_extensions

  unfoldable pub is_supported_source_path : Bytes → Bool
  is_supported_source_path path = any_equal (to_lower (extension path)) source_extensions

  abbrev pub resolve_header : Bytes → Option ResolvedFunction → ResolvedFunction
  resolve_header path none = record { header_paths = add path []; non_header_paths = [] }
  resolve_header path (some r) = record r { header_paths = add path r.header_paths }

  abbrev pub resolve_source : Bytes → Option ResolvedFunction → ResolvedFunction
  resolve_source path none = record { header_paths = []; non_header_paths = add path [] }
  resolve_source path (some r) = record r { non_header_paths = add path r.non_header_paths }

  -- The callback of the matcher for functions. The first capture of a function counts.
  unfoldable pub handle_function :
      Bool → Bytes → Option Bytes → CapturedFunction → GlobalContext → GlobalContext
  unfolding is_likely_header_path
  handle_function c_linkage name path captured ctx =
      if not c_linkage
      then ctx
      else if not (is_some (find name ctx.requested_functions))
      then ctx
      else elim path [
        | none ↦ ctx
        | some p ↦
            if is_likely_header_path p
            then record ctx {
              resolved_functions = update name (resolve_header p) ctx.resolved_functions;
            }
            else record ctx {
              resolved_functions = update name (resolve_source p) ctx.resolved_functions;
              captured_functions = insert name captured ctx.captured_functions;
            }
      ]

  -- A declaration that the type names: its qualified name and its path.
  unfoldable pub add_named_decl_dependency : Bytes → Option Bytes → CapturedType → CapturedType
  unfolding is_likely_header_path
  add_named_decl_dependency name path out =
      let named =
        if is_nil name
        then out
        else record out { dependency_names = add name out.dependency_names } in
      elim path [
        | none ↦ named
        | some p ↦
            if is_likely_header_path p
            then record named { header_paths = add p named.header_paths }
            else record named { non_header_paths = add p named.non_header_paths }
      ]

  unfoldable mutual
    pub collect_type_dependencies : TypeTree → CapturedType → CapturedType
    collect_type_dependencies leaf out = out
    collect_type_dependencies (named_type name path) out = add_named_decl_dependency name path out
    collect_type_dependencies (pointee t) out = collect_type_dependencies t out
    collect_type_dependencies (function_type r params) out =
        collect_all_dependencies params (collect_type_dependencies r out)

    pub collect_all_dependencies : TypeTrees → CapturedType → CapturedType
    collect_all_dependencies nil out = out
    collect_all_dependencies (cons t ts) out =
        collect_all_dependencies ts (collect_type_dependencies t out)
