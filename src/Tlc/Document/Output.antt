-- ===== src/Tlc/Document/Output.antt =====
-- `DocumentContext::generateOutput` of src/libs/TLCApi/DocumentContext.cpp: the source file with
-- the thunks of a document. The alias of a generated function, which comes from the mangling of
-- Clang, is a parameter: an alias or an error.
pub mod Missing
pub mod Legend
pub mod Whole
pub mod Complete
pub mod Collected
use lorelei.Base.{
  ℕ, ◌+◌, ◌-◌, ◌%◌, ◌/◌, ◌^◌, ltb, ◌==◌, Bool, true, false, ◌||◌, ◌⊎◌, inl, inr, List, [], ◌∷◌,
  ◌++◌, length, replicate, Option, none, some, Bytes, codes, has_byte, is_some, if◌then◌else◌,
}
use lorelei.Ordered.{Map, Set, find}
use lorelei.Tlc.Snippet.{
  ProcKind, function, callback, ProcDirection, guest_to_host, host_to_guest, ProcPhase, entry,
  adapt, caller, Clang, ProcSnippet, FunctionInfo, Desc, decl_text, decl_function_info, to_raw_text,
}
use lorelei.Tlc.Snippet.Text.{text, direction_name}
use lorelei.Tlc.Document.{Mode, guest, host, Document}

-- What is written; an error that is reported behind what was written; an exception; a null
-- declaration that is used.
pub data Output : Type 0 where
  written : Bytes → Output
  stopped : Bytes → Bytes → Output
  thrown : Output
  undefined : Output

infixr 5 ◌<+>◌
abbrev pub ◌<+>◌ : Output → Output → Output
written a <+> written b = written (a ++ b)
written a <+> stopped b e = stopped (a ++ b) e
written a <+> thrown = thrown
written a <+> undefined = undefined
stopped a e <+> o = stopped a e
thrown <+> o = thrown
undefined <+> o = undefined

abbrev newline : Bytes
newline = 10 ∷ []

abbrev line : Bytes → Bytes
line s = s ++ newline

abbrev paragraph : Bytes → Bytes
paragraph s = s ++ (newline ++ newline)

-- `std::string(count, '=')` throws for an `int` below zero, which is no size of a text.
unfoldable pub legend_line : Bytes → Option Bytes
legend_line name =
    let eq_count = (2 ^ 64 + 75 - length name) % 2 ^ 64 / 2 % 2 ^ 32 in
    let bar = replicate eq_count b'=' in
    if ltb eq_count (2 ^ 31)
    then some (codes "// " ++ (bar ++ (codes " " ++ (name ++ (codes " " ++ bar)))))
    else none

-- `std::filesystem::path(s).filename()`
unfoldable pub file_name : Bytes → Bytes
file_name [] = []
file_name (c ∷ s) = let rest = file_name s in if c == b'/' || has_byte b'/' s then rest else c ∷ s

abbrev quote : Bytes → Bytes
quote s = b'"' ∷ (s ++ b'"' ∷ [])

abbrev include_quoted : Bytes → Bytes
include_quoted s = codes "#include " ++ quote s

-- the requested names without a declaration
unfoldable pub missing_names : {V : Type 0} → Set → Map V → List Bytes
missing_names [] decls = []
missing_names ((name, u) ∷ requested) decls =
    let rest = missing_names requested decls in
    if is_some (find name decls) then rest else name ∷ rest

unfoldable pub name_comments : List Bytes → Bytes
name_comments [] = []
name_comments (name ∷ names) = line (codes "// " ++ name) ++ name_comments names

module _ (clang : Clang)
    (get_invoke_alias : Bytes
      → Bytes
      → clang.FunctionDecl
      → Option clang.QualType
      → Bytes ⊎ Bytes) where
  open clang use {FunctionDecl, QualType, type_string}

  unfoldable pub emit_manifest_prologue : Document clang → Bytes
  unfolding file_name
  emit_manifest_prologue doc =
      paragraph (codes "#define LORE_THUNK_BUILD")
      ++ (line (codes "#include <lorelei/ThunkInterface/Detail/Callback.h>")
          ++ (paragraph (codes "#include <lorelei/ThunkInterface/Detail/Variadic.h>")
              ++ paragraph (include_quoted (file_name doc.pre_include_file_name))))

  abbrev pub overlay_of : Option (Desc clang) → Option QualType
  overlay_of none = none
  overlay_of (some d) = d.overlay_type

  -- the side whose functions a thunk exports, and the symbol of one
  abbrev pub exported_direction : Mode → ProcDirection
  exported_direction guest = guest_to_host
  exported_direction host = host_to_guest

  abbrev pub exported_symbol : Mode → Bytes → Bytes
  exported_symbol guest name = name
  exported_symbol host name = codes "GTL_" ++ name

  abbrev pub alias_text : Mode → ProcSnippet clang → FunctionDecl → Bytes → Bytes
  alias_text mode proc fd alias =
      codes "LORE_DECL_EXPORT "
      ++ (line (decl_text clang (decl_function_info clang fd) (exported_symbol mode proc.name))
          ++ line (codes "    __attribute__((alias(" ++ (quote alias ++ codes ")));")))

  unfoldable pub export_alias : Mode → ProcSnippet clang → Output
  unfolding decl_text
  export_alias mode proc = elim proc.function_decl [
    | none ↦ undefined
    | some fd ↦
        elim (get_invoke_alias (direction_name (exported_direction mode)) (codes "Entry") fd
          (overlay_of proc.desc)) [
            | inl alias ↦ written (alias_text mode proc fd alias)
            | inr error ↦ stopped [] error
          ]
  ]

  -- A loop over procs.
  unfoldable pub each_proc : (ProcSnippet clang → Output) → Map (ProcSnippet clang) → Output
  each_proc f [] = written []
  each_proc f ((key, proc) ∷ procs) = f proc <+> each_proc f procs

  unfoldable pub emit_exported_aliases : Document clang → Output
  unfolding each_proc export_alias
  emit_exported_aliases doc =
      written (
        line (codes "extern " ++ (quote (codes "C") ++ codes " {"))
        ++ (line (codes "#pragma GCC diagnostic push")
            ++ line (codes "#pragma GCC diagnostic ignored " ++ quote (codes "-Wattribute-alias"))))
      <+> each_proc (export_alias doc.mode) (doc.functions (exported_direction doc.mode))
      <+> written (line (codes "#pragma GCC diagnostic pop") ++ paragraph (codes "}"))

  -- an entry of a macro, on a line of its own
  abbrev macro_item : Bytes → Bytes
  macro_item args = codes " " ++ (b'\\' ∷ (newline ++ (codes "    F(" ++ (args ++ codes ")"))))

  abbrev pub function_item : ProcSnippet clang → Output
  function_item proc = written (macro_item proc.name)

  -- `functionPointerType().value()` throws without a type.
  abbrev pub callback_using : ProcSnippet clang → Output
  callback_using proc = elim proc.function_pointer_type [
    | none ↦ thrown
    | some t ↦
        written
          (line (codes "using " ++ (proc.name ++ (codes " = " ++ (type_string t ++ codes ";")))))
  ]

  abbrev pub callback_macro : ProcSnippet clang → Output
  callback_macro proc = elim proc.function_pointer_type [
    | none ↦ thrown
    | some t ↦ written (macro_item (proc.name ++ (codes ", " ++ quote (type_string t))))
  ]

  unfoldable pub emit_foreach_macros : Document clang → Output
  unfolding each_proc
  emit_foreach_macros doc =
      written (codes "#define LORE_THUNK_FUNCTION_G2H_FOREACH(F)")
      <+> each_proc function_item (doc.functions guest_to_host)
      <+> written (paragraph [] ++ codes "#define LORE_THUNK_FUNCTION_H2G_FOREACH(F)")
      <+> each_proc function_item (doc.functions host_to_guest)
      <+> written (paragraph [] ++ paragraph (codes "namespace lore::thunk {"))
      <+> each_proc callback_using (doc.callbacks guest_to_host)
      <+> written
          (newline ++ (paragraph (codes "}") ++ codes "#define LORE_THUNK_CALLBACK_FOREACH(F)"))
      <+> each_proc callback_macro (doc.callbacks guest_to_host)
      <+> written (paragraph [])

  -- A phase that the manifest defines is not generated.
  abbrev pub phase_text : Bool → ProcSnippet clang → ProcPhase → Bytes
  phase_text as_declaration proc phase =
      if is_some (proc.definitions phase) then [] else line (text clang proc phase as_declaration)

  unfoldable pub proc_text : Bool → ProcSnippet clang → Output
  unfolding legend_line text
  proc_text as_declaration proc = elim (legend_line proc.name) [
    | none ↦ thrown
    | some legend ↦ written (
        line legend
        ++ (phase_text as_declaration proc caller
            ++ (phase_text as_declaration proc adapt ++ phase_text as_declaration proc entry)))
  ]

  unfoldable pub emit_proc_texts : Bool → Document clang → Output
  unfolding each_proc proc_text
  emit_proc_texts as_declaration doc =
      each_proc (proc_text as_declaration) (doc.functions guest_to_host)
      <+> each_proc (proc_text as_declaration) (doc.functions host_to_guest)
      <+> each_proc (proc_text as_declaration) (doc.callbacks guest_to_host)
      <+> each_proc (proc_text as_declaration) (doc.callbacks host_to_guest)

  abbrev banner : Bytes → Bytes
  banner title = line (codes "//") ++ (line (codes "// " ++ title) ++ line (codes "//"))

  unfoldable pub emit_missing_comments : Document clang → Bytes
  unfolding missing_names name_comments
  emit_missing_comments doc =
      let missing : ProcDirection → List Bytes =
        λ d. missing_names (doc.requested.functions d) (doc.function_decls d) in
      banner (codes "Missing Function Declarations")
      ++ (line (name_comments (missing guest_to_host))
          ++ (banner (codes "Missing Guest Function Declarations")
              ++ (line (name_comments (missing host_to_guest))
                  ++ line (banner (codes "Missing Variable Declarations")))))

  -- An error from before the call counts as well.
  abbrev pub unless_error : Bool → Output → Output
  unless_error false o = o
  unless_error true o = written []

  abbrev open_namespace : Bytes
  open_namespace = paragraph (codes "namespace lore::thunk {")

  unfoldable pub generate_output : Bool → Document clang → Output
  unfolding emit_manifest_prologue emit_exported_aliases emit_foreach_macros emit_proc_texts
      emit_missing_comments file_name to_raw_text
  generate_output had_error doc =
      written (emit_manifest_prologue doc)
      <+> emit_exported_aliases doc
      <+> unless_error had_error (
          written (line (to_raw_text doc.source.head))
          <+> emit_foreach_macros doc
          <+> written open_namespace
          <+> emit_proc_texts true doc
          <+> written (
              paragraph (codes "}")
              ++ (paragraph (include_quoted (file_name doc.main_file_name)) ++ open_namespace))
          <+> emit_proc_texts false doc
          <+> written (
              paragraph (codes "}")
              ++ (line (to_raw_text doc.source.tail)
                  ++ (emit_missing_comments doc
                      ++ paragraph
                          (codes "#include <lorelei/ThunkInterface/Detail/ProcImpl.cpp.inc>")))))
