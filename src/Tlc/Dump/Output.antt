-- ===== src/Tlc/Dump/Output.antt =====
-- `buildOutput` of src/tools/TLC/Commands/Dump.cpp: the header that includes what declares the
-- requested functions, with comments, and the declarations for the others.
pub mod Headers
use lorelei.Base.{
  ℕ, Bool, true, false, not, List, [], ◌∷◌, ◌++◌, map, flatten, Option, none, some, Bytes, codes,
  is_nil, if◌then◌else◌,
}
use lorelei.Ordered.{Map, Set, find, update, add, keys}
use lorelei.Ordered.Order.{less}
use lorelei.Tlc.Dump.{
  GlobalContext, RequestedFunction, ResolvedFunction, CapturedFunction, escape_for_include,
}
use lorelei.Tlc.Dump.Fallback.{FallbackDeclDecision, join_set, build_fallback_decl_decision}

-- `std::sort` of texts
unfoldable pub insert_sorted : Bytes → List Bytes → List Bytes
insert_sorted x [] = x ∷ []
insert_sorted x (y ∷ ys) =
    let rest = insert_sorted x ys in if less y x then y ∷ rest else x ∷ y ∷ ys

unfoldable pub sort : List Bytes → List Bytes
unfolding insert_sorted
sort [] = []
sort (x ∷ xs) = insert_sorted x (sort xs)

-- `describeFunction`
unfoldable pub describe_function : Bytes → RequestedFunction → Bytes
unfolding join_set
describe_function name requested =
    name ++ (codes " [" ++ (join_set (keys requested.sections) ++ codes "]"))

-- where the requested functions are found
pub record Listing : Type 0 where
  pub header_to_functions : Map (List Bytes)
  pub missing_functions : List Bytes
  pub non_header_only_functions : List Bytes

-- `headerToFunctions[path].push_back(description)`
abbrev pub push_description : Bytes → Option (List Bytes) → List Bytes
push_description d none = d ∷ []
push_description d (some ds) = ds ++ d ∷ []

unfoldable pub add_to_headers : Bytes → List Bytes → Map (List Bytes) → Map (List Bytes)
add_to_headers d [] m = m
add_to_headers d (path ∷ paths) m = add_to_headers d paths (update path (push_description d) m)

abbrev pub found_description : Bytes → ResolvedFunction → Bytes
found_description d r =
    if not (is_nil r.non_header_paths) then d ++ codes " (also seen in non-header files)" else d

-- a function that no header declares
abbrev pub list_without_header : Bytes → Option ResolvedFunction → Listing → Listing
list_without_header d none l = record l {
  missing_functions = l.missing_functions ++ (d ++ codes " missing") ∷ [];
}
list_without_header d (some r) l =
    if not (is_nil r.non_header_paths)
    then record l {
      non_header_only_functions =
          l.non_header_only_functions
          ++ (d
              ++ (codes " found only in non-header files: " ++ join_set (keys r.non_header_paths)))
            ∷ [];
    }
    else record l { missing_functions = l.missing_functions ++ (d ++ codes " missing") ∷ [] }

unfoldable pub list_function : Map ResolvedFunction → Bytes → RequestedFunction → Listing → Listing
unfolding describe_function add_to_headers
list_function resolved name requested l = elim (find name resolved) [
  | none ↦ list_without_header (describe_function name requested) none l
  | some r ↦
      if is_nil r.header_paths
      then list_without_header (describe_function name requested) (some r) l
      else record l {
        header_to_functions =
            add_to_headers (found_description (describe_function name requested) r)
              (keys r.header_paths) l.header_to_functions;
      }
]

unfoldable pub list_functions : Map ResolvedFunction → Map RequestedFunction → Listing → Listing
unfolding list_function
list_functions resolved [] l = l
list_functions resolved ((name, requested) ∷ more) l =
    list_functions resolved more (list_function resolved name requested l)

abbrev pub no_listing : Listing
no_listing = record {
  header_to_functions = [];
  missing_functions = [];
  non_header_only_functions = [];
}

-- the keys of a map as a set
unfoldable pub known_headers : List Bytes → Set → Set
known_headers [] known = known
known_headers (path ∷ paths) known = known_headers paths (add path known)

pub record FallbackDeclOutput : Type 0 where
  pub function_name : Bytes
  pub source_path : Bytes
  pub source_location : Bytes
  pub decl_text : Bytes
  pub notes : List Bytes
  pub errors : List Bytes

abbrev pub fallback_output : Bytes → CapturedFunction → FallbackDeclDecision → FallbackDeclOutput
fallback_output name fn decision = record {
  function_name = name;
  source_path = fn.source_path;
  source_location = fn.source_location;
  decl_text = if decision.allowed then decision.decl_text else [];
  notes = decision.notes;
  errors = decision.errors;
}

-- A function that was seen, in no header, and whose declaration was captured.
unfoldable pub fallback_of : GlobalContext → Set → Bytes → List FallbackDeclOutput
unfolding build_fallback_decl_decision
fallback_of ctx known name = elim (find name ctx.resolved_functions) [
  | none ↦ []
  | some r ↦ if not (is_nil r.header_paths) then [] else elim (find name ctx.captured_functions) [
    | none ↦ []
    | some fn ↦ fallback_output name fn (build_fallback_decl_decision name fn known) ∷ []
  ]
]

-- In the order of the names, in which sorting by the name leaves them.
unfoldable pub fallback_decls : GlobalContext → Set → List Bytes → List FallbackDeclOutput
unfolding fallback_of
fallback_decls ctx known [] = []
fallback_decls ctx known (name ∷ names) =
    fallback_of ctx known name ++ fallback_decls ctx known names

abbrev pub newline : Bytes
newline = 10 ∷ []

-- ` * - item` on a line each
unfoldable pub item_lines : List Bytes → Bytes
item_lines [] = []
item_lines (item ∷ items) = codes " * - " ++ (item ++ (newline ++ item_lines items))

-- `appendFunctionListComment`
abbrev pub function_list_comment : Bytes → List Bytes → Bytes
function_list_comment title items =
    codes "/*"
    ++ (newline
        ++ (codes " * " ++ (title ++ (newline ++ (item_lines items ++ (codes " */" ++ newline))))))

abbrev pub comment_unless_nil : Bytes → List Bytes → Bytes
comment_unless_nil title items =
    if is_nil items then [] else function_list_comment title (sort items) ++ newline

unfoldable pub include_lines : Map (List Bytes) → Bytes
unfolding sort item_lines escape_for_include
include_lines [] = []
include_lines ((path, functions) ∷ m) =
    function_list_comment (codes "Functions declared in this header:") (sort functions)
    ++ (codes "#include "
        ++ (0x22 ∷ (escape_for_include path ++ (0x22 ∷ (newline ++ (newline ++ include_lines m))))))

-- a line of the comment, if there is a text for it
abbrev pub optional_line : Bytes → Bytes → Bytes
optional_line title text = if is_nil text then [] else title ++ (text ++ newline)

unfoldable pub fallback_text : FallbackDeclOutput → Bytes
unfolding item_lines
fallback_text f = flatten (
    codes "/*"
    ∷ newline
    ∷ codes " * Fallback for "
    ∷ f.function_name
    ∷ newline
    ∷ optional_line (codes " * Source: ") f.source_path
    ∷ optional_line (codes " * Source location: ") f.source_location
    ∷ (if is_nil f.notes
        then codes " * Rewrites: none" ++ newline
        else codes " * Rewrites:" ++ (newline ++ item_lines f.notes))
    ∷ (if is_nil f.errors
        then codes " * Status: declaration synthesized below" ++ newline
        else codes " * Status: cannot synthesize declaration" ++ (newline ++ item_lines f.errors))
    ∷ codes " */"
    ∷ newline
    ∷ (if is_nil f.errors then f.decl_text ++ (newline ++ newline) else newline)
    ∷ [])

abbrev pub fallback_head : Bytes
fallback_head = flatten (
    codes "/*"
    ∷ newline
    ∷ codes " * Fallback declarations synthesized from non-header source files."
    ∷ newline
    ∷ codes " * These are emitted after all includes so they may reuse already included types."
    ∷ newline
    ∷ codes " */"
    ∷ newline
    ∷ newline
    ∷ [])

-- What `buildOutput` puts in the buffer.
unfoldable pub build_output : GlobalContext → Bytes
unfolding list_functions known_headers fallback_decls include_lines fallback_text
build_output ctx =
    let l = list_functions ctx.resolved_functions ctx.requested_functions no_listing in
    let known = known_headers (keys l.header_to_functions) [] in
    let fallbacks = fallback_decls ctx known (keys ctx.requested_functions) in
    flatten (
      codes "#pragma once"
      ∷ newline
      ∷ newline
      ∷ codes "/*"
      ∷ newline
      ∷ codes " * Auto-generated by LoreTLC dump."
      ∷ newline
      ∷ codes " * Config: "
      ∷ ctx.config_path
      ∷ newline
      ∷ codes " */"
      ∷ newline
      ∷ newline
      ∷ comment_unless_nil (codes "Missing configured functions:") l.missing_functions
      ∷ comment_unless_nil (codes "Configured functions found only in non-header files:")
          l.non_header_only_functions
      ∷ include_lines l.header_to_functions
      ∷ (if is_nil fallbacks then [] else fallback_head ++ flatten (map fallback_text fallbacks))
      ∷ [])
