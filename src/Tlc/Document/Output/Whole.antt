-- ===== src/Tlc/Document/Output/Whole.antt =====
-- The file that `DocumentContext::generateOutput` of src/libs/TLCApi/DocumentContext.cpp is to
-- write, as one text: what stands in it for each proc, in the order of the maps.
use lorelei.Base.{
  Bool, true, false, ◌⊎◌, inl, inr, [], ◌∷◌, ◌++◌, map, flatten, Option, none, some, Bytes, codes,
}
use lorelei.Ordered.{Map}
use lorelei.Tlc.Snippet.{
  ProcDirection, guest_to_host, host_to_guest, ProcPhase, entry, adapt, caller, Clang, ProcSnippet,
  Desc, decl_text, decl_function_info, to_raw_text,
}
use lorelei.Tlc.Snippet.Text.{text}
use lorelei.Tlc.Document.{Mode, guest, host, Document}
use lorelei.Tlc.Document.Output.{file_name, missing_names}
use lorelei.Tlc.Document.Output.Legend.{centered}

-- a text with the end of its line, and with an empty line behind it
abbrev pub ended : Bytes → Bytes
ended s = s ++ 10 ∷ []

abbrev pub spaced : Bytes → Bytes
spaced s = s ++ (10 ∷ 10 ∷ [])

abbrev pub quoted : Bytes → Bytes
quoted s = b'"' ∷ (s ++ b'"' ∷ [])

-- The texts of all entries, one behind the other.
abbrev pub join : {V : Type 0} → (V → Bytes) → Map V → Bytes
join f m = flatten (map (λ e. f e.1) m)

-- the side whose functions a thunk exports, and the symbols that it exports
abbrev pub exported : Mode → ProcDirection
exported guest = guest_to_host
exported host = host_to_guest

abbrev pub side_name : Mode → Bytes
side_name guest = codes "GuestToHost"
side_name host = codes "HostToGuest"

abbrev pub symbol : Mode → Bytes → Bytes
symbol guest name = name
symbol host name = codes "GTL_" ++ name

abbrev pub missing_comment : Bytes → Bytes
missing_comment name = ended (codes "// " ++ name)

abbrev pub title : Bytes → Bytes
title s = codes "//" ++ (10 ∷ (codes "// " ++ (s ++ (10 ∷ (codes "//" ++ 10 ∷ [])))))

module _ (clang : Clang)
    (get_invoke_alias : Bytes
      → Bytes
      → clang.FunctionDecl
      → Option clang.QualType
      → Bytes ⊎ Bytes) where
  open clang use {FunctionDecl, QualType, type_string}

  abbrev pub overlay : Option (Desc clang) → Option QualType
  overlay none = none
  overlay (some desc) = desc.overlay_type

  abbrev pub alias_or_nothing : Bytes ⊎ Bytes → Bytes
  alias_or_nothing (inl alias) = alias
  alias_or_nothing (inr error) = []

  -- the declaration of a function under its exported symbol, as an alias of its entry
  abbrev pub export : Mode → ProcSnippet clang → Bytes
  export mode proc = elim proc.function_decl [
    | none ↦ []
    | some fd ↦
        let alias = get_invoke_alias (side_name mode) (codes "Entry") fd (overlay proc.desc) in
        codes "LORE_DECL_EXPORT "
        ++ (ended (decl_text clang (decl_function_info clang fd) (symbol mode proc.name))
            ++ ended (
                codes "    __attribute__((alias("
                ++ (quoted (alias_or_nothing alias) ++ codes ")));")))
  ]

  abbrev pub exports : Document clang → Bytes
  exports doc =
      (codes "extern "
        ++ (quoted (codes "C")
            ++ (codes " {"
                ++ (10
                    ∷ (codes "#pragma GCC diagnostic push"
                        ++ (10
                            ∷ (codes "#pragma GCC diagnostic ignored "
                                ++ (quoted (codes "-Wattribute-alias") ++ 10 ∷ []))))))))
      ++ (join (export doc.mode) (doc.functions (exported doc.mode))
          ++ (codes "#pragma GCC diagnostic pop" ++ (10 ∷ spaced (codes "}"))))

  -- an entry of a macro
  abbrev pub item : Bytes → Bytes
  item args = codes " " ++ (b'\\' ∷ (10 ∷ (codes "    F(" ++ (args ++ codes ")"))))

  abbrev pub type_text : Option QualType → Bytes
  type_text none = []
  type_text (some t) = type_string t

  abbrev pub macros : Document clang → Bytes
  macros doc =
      codes "#define LORE_THUNK_FUNCTION_G2H_FOREACH(F)"
      ++ (join (λ proc. item proc.name) (doc.functions guest_to_host)
          ++ ((10 ∷ 10 ∷ codes "#define LORE_THUNK_FUNCTION_H2G_FOREACH(F)")
              ++ (join (λ proc. item proc.name) (doc.functions host_to_guest)
                  ++ ((10 ∷ 10 ∷ spaced (codes "namespace lore::thunk {"))
                      ++ (join
                            (λ proc. ended (
                              codes "using "
                              ++ (proc.name
                                  ++ (codes " = "
                                      ++ (type_text proc.function_pointer_type ++ codes ";")))))
                            (doc.callbacks guest_to_host)
                          ++ ((10
                                ∷ (spaced (codes "}")
                                    ++ codes "#define LORE_THUNK_CALLBACK_FOREACH(F)"))
                              ++ (join
                                    (λ proc. item (
                                      proc.name
                                      ++ (codes ", "
                                          ++ quoted (type_text proc.function_pointer_type))))
                                    (doc.callbacks guest_to_host)
                                  ++ (10 ∷ 10 ∷ []))))))))

  -- what is generated for a phase that the manifest does not define
  abbrev pub phase_section : Bool → ProcSnippet clang → ProcPhase → Bytes
  phase_section as_declaration proc phase = elim (proc.definitions phase) [
    | none ↦ ended (text clang proc phase as_declaration)
    | some definition ↦ []
  ]

  abbrev pub proc_section : Bool → ProcSnippet clang → Bytes
  proc_section as_declaration proc =
      ended (centered proc.name)
      ++ (phase_section as_declaration proc caller
          ++ (phase_section as_declaration proc adapt ++ phase_section as_declaration proc entry))

  -- all procs: the functions of both directions, then the callbacks
  abbrev pub sections : Bool → Document clang → Bytes
  sections as_declaration doc =
      join (proc_section as_declaration) (doc.functions guest_to_host)
      ++ (join (proc_section as_declaration) (doc.functions host_to_guest)
          ++ (join (proc_section as_declaration) (doc.callbacks guest_to_host)
              ++ join (proc_section as_declaration) (doc.callbacks host_to_guest)))

  abbrev pub missing : Document clang → ProcDirection → Bytes
  missing doc d =
      flatten
        (map missing_comment (missing_names (doc.requested.functions d) (doc.function_decls d)))

  abbrev pub missing_comments : Document clang → Bytes
  missing_comments doc =
      title (codes "Missing Function Declarations")
      ++ (ended (missing doc guest_to_host)
          ++ (title (codes "Missing Guest Function Declarations")
              ++ (ended (missing doc host_to_guest)
                  ++ ended (title (codes "Missing Variable Declarations")))))

  abbrev pub included : Bytes → Bytes
  included path = spaced (codes "#include " ++ quoted (file_name path))

  abbrev pub prologue : Document clang → Bytes
  prologue doc =
      spaced (codes "#define LORE_THUNK_BUILD")
      ++ (ended (codes "#include <lorelei/ThunkInterface/Detail/Callback.h>")
          ++ (spaced (codes "#include <lorelei/ThunkInterface/Detail/Variadic.h>")
              ++ included doc.pre_include_file_name))

  -- the whole file: the exports, the head of the document, the macros, all declarations, the main
  -- source, all definitions, the tail, and what is missing
  unfoldable pub whole : Document clang → Bytes
  whole doc =
      prologue doc
      ++ (exports doc
          ++ (ended (to_raw_text doc.source.head)
              ++ (macros doc
                  ++ (spaced (codes "namespace lore::thunk {")
                      ++ (sections true doc
                          ++ ((spaced (codes "}")
                                ++ (included doc.main_file_name
                                    ++ spaced (codes "namespace lore::thunk {")))
                              ++ (sections false doc
                                  ++ (spaced (codes "}")
                                      ++ (ended (to_raw_text doc.source.tail)
                                          ++ (missing_comments doc
                                              ++ spaced (
                                                  codes
                                                    "#include <lorelei/ThunkInterface/Detail/ProcImpl.cpp.inc>")))))))))))
