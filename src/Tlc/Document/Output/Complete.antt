-- ===== src/Tlc/Document/Output/Complete.antt =====
-- What is written of a document is the whole file when its procs have what their texts need.
use lorelei.Base.{
  ◌≤◌, leb, ◌≡◌, refl, ap, Bool, true, false, ◌⊎◌, inl, [], ◌∷◌, ◌++◌, List, map, flatten, Option,
  none, some, Bytes, codes, length, is_some, if◌then◌else◌, arith,
}
use lorelei.Ordered.{Map}
use lorelei.Tlc.Snippet.{
  ProcDirection, guest_to_host, host_to_guest, ProcPhase, entry, adapt, caller, Clang, ProcSnippet,
}
use lorelei.Tlc.Snippet.Text.{text}
use lorelei.Tlc.Document.{Mode, guest, host, Document}
use lorelei.Tlc.Document.Output.{
  Output, written, each_proc, export_alias, exported_direction, name_comments, missing_names,
  callback_using, callback_macro, function_item, proc_text, phase_text, emit_exported_aliases,
  emit_foreach_macros, emit_proc_texts, emit_manifest_prologue, generate_output,
}
use lorelei.Tlc.Document.Output.Legend.{legend_line-centered}
use lorelei.Tlc.Document.Output.Whole.{
  ended, item, join, exported, side_name, overlay, export, exports, type_text, macros,
  missing_comment, quoted, phase_section, proc_section, sections, prologue, whole,
}

name_comments-join :
    (names : List Bytes) → name_comments names ≡ flatten (map missing_comment names)
unfolding name_comments flatten
name_comments-join [] = refl
name_comments-join (name ∷ names) = ap (λ s. missing_comment name ++ s) (name_comments-join names)

module _ (clang : Clang)
    (get_invoke_alias : Bytes
      → Bytes
      → clang.FunctionDecl
      → Option clang.QualType
      → Bytes ⊎ Bytes) where
  -- The property holds of all procs.
  abbrev pub Each : (ProcSnippet clang → Type 0) → Map (ProcSnippet clang) → Type 0
  Each P [] = Unit
  Each P ((key, proc) ∷ procs) = P proc × Each P procs

  each_proc-join :
      (P : ProcSnippet clang → Type 0) (f : ProcSnippet clang → Output)
      (g : ProcSnippet clang → Bytes)
      → ((proc : ProcSnippet clang) → P proc → f proc ≡ written (g proc))
      → (procs : Map (ProcSnippet clang)) → Each P procs
      → each_proc clang get_invoke_alias f procs ≡ written (join g procs)
  unfolding each_proc flatten
  each_proc-join P f g h [] all = refl
  each_proc-join P f g h ((key, proc) ∷ procs) all =
      rw (h proc all.0, each_proc-join P f g h procs all.1) refl

  Each-Unit : (procs : Map (ProcSnippet clang)) → Each (λ _. Unit) procs
  Each-Unit [] = tt
  Each-Unit ((key, proc) ∷ procs) = (tt, Each-Unit procs)

  -- the name fits in the banner
  abbrev pub Fits : ProcSnippet clang → Type 0
  Fits proc = length proc.name ≤ 75

  -- the function has a declaration for which there is an alias
  abbrev pub HasAlias : Mode → ProcSnippet clang → Type 0
  HasAlias mode proc =
      (fd : clang.FunctionDecl) × (alias : Bytes) × (proc.function_decl ≡ some fd)
      × (get_invoke_alias (side_name mode) (codes "Entry") fd
            (overlay clang get_invoke_alias proc.desc)
          ≡ inl alias)

  abbrev pub HasType : ProcSnippet clang → Type 0
  HasType proc = (t : clang.QualType) × (proc.function_pointer_type ≡ some t)

  phase_text-phase_section :
      (as_declaration : Bool) (proc : ProcSnippet clang) (phase : ProcPhase)
      → phase_text clang get_invoke_alias as_declaration proc phase
        ≡ phase_section clang get_invoke_alias as_declaration proc phase
  unfolding is_some
  phase_text-phase_section as_declaration proc phase =
      let generated = ended (text clang proc phase as_declaration) in
      elim (proc.definitions phase)
        as (λ o.
          (if is_some o then [] else generated)
          ≡ elim o as (λ _. Bytes) [ none ↦ generated | some definition ↦ [] ]) [
            | none ↦ refl
            | some definition ↦ refl
          ]

  proc_text-proc_section :
      (as_declaration : Bool) (proc : ProcSnippet clang)
      → Fits proc
      → proc_text clang get_invoke_alias as_declaration proc
        ≡ written (proc_section clang get_invoke_alias as_declaration proc)
  unfolding proc_text
  proc_text-proc_section as_declaration proc fits =
      let short : leb (length proc.name) 75 ≡ true = ground arith in
      rw
        (
          proc_text,
          legend_line-centered proc.name (omega arith),
          short,
          phase_text-phase_section as_declaration proc caller,
          phase_text-phase_section as_declaration proc adapt,
          phase_text-phase_section as_declaration proc entry,
        )
        refl

  emit_proc_texts-sections :
      (as_declaration : Bool) (doc : Document clang)
      → ((d : ProcDirection) → Each Fits (doc.functions d) × Each Fits (doc.callbacks d))
      → emit_proc_texts clang get_invoke_alias as_declaration doc
        ≡ written (sections clang get_invoke_alias as_declaration doc)
  unfolding emit_proc_texts
  emit_proc_texts-sections as_declaration doc fits =
      let each = each_proc-join Fits _ _ (proc_text-proc_section as_declaration) in
      rw
        (
          each (doc.functions guest_to_host) (fits guest_to_host).0,
          each (doc.functions host_to_guest) (fits host_to_guest).0,
          each (doc.callbacks guest_to_host) (fits guest_to_host).1,
          each (doc.callbacks host_to_guest) (fits host_to_guest).1,
        )
        refl

  export_alias-export :
      (mode : Mode) (proc : ProcSnippet clang)
      → HasAlias mode proc
      → export_alias clang get_invoke_alias mode proc
        ≡ written (export clang get_invoke_alias mode proc)
  unfolding export_alias
  export_alias-export guest proc (fd, alias, has_decl, has_alias) =
      rw (export_alias, has_decl, has_alias) refl
  export_alias-export host proc (fd, alias, has_decl, has_alias) =
      rw (export_alias, has_decl, has_alias) refl

  exported_direction-exported :
      (mode : Mode) → exported_direction clang get_invoke_alias mode ≡ exported mode
  exported_direction-exported guest = refl
  exported_direction-exported host = refl

  emit_exported_aliases-exports :
      (doc : Document clang)
      → Each (HasAlias doc.mode) (doc.functions (exported doc.mode))
      → emit_exported_aliases clang get_invoke_alias doc
        ≡ written (exports clang get_invoke_alias doc)
  unfolding emit_exported_aliases
  emit_exported_aliases-exports doc aliased =
      let side = exported_direction-exported doc.mode in
      rw
        (
          side,
          each_proc-join (HasAlias doc.mode) _ _ (export_alias-export doc.mode)
              (doc.functions (exported doc.mode)) aliased,
        )
        refl

  callback_using-text :
      (proc : ProcSnippet clang)
      → HasType proc
      → callback_using clang get_invoke_alias proc
        ≡ written (
            ended (
              codes "using "
              ++ (proc.name
                  ++ (codes " = "
                      ++ (type_text clang get_invoke_alias proc.function_pointer_type
                          ++ codes ";")))))
  callback_using-text proc (t, e) = rw e refl

  callback_macro-text :
      (proc : ProcSnippet clang)
      → HasType proc
      → callback_macro clang get_invoke_alias proc
        ≡ written (
            item clang get_invoke_alias (
              proc.name
              ++ (codes ", "
                  ++ quoted (type_text clang get_invoke_alias proc.function_pointer_type))))
  callback_macro-text proc (t, e) = rw e refl

  emit_foreach_macros-macros :
      (doc : Document clang)
      → Each HasType (doc.callbacks guest_to_host)
      → emit_foreach_macros clang get_invoke_alias doc ≡ written (macros clang get_invoke_alias doc)
  unfolding emit_foreach_macros
  emit_foreach_macros-macros doc typed =
      let names =
        each_proc-join (λ _. Unit) (function_item clang get_invoke_alias)
          (λ proc. item clang get_invoke_alias proc.name) (λ _ _. refl) in
      rw
        (
          names (doc.functions guest_to_host) (Each-Unit _),
          names (doc.functions host_to_guest) (Each-Unit _),
          each_proc-join HasType _ _ callback_using-text (doc.callbacks guest_to_host) typed,
          each_proc-join HasType _ _ callback_macro-text (doc.callbacks guest_to_host) typed,
        )
        refl

  emit_manifest_prologue-text :
      (doc : Document clang)
      → emit_manifest_prologue clang get_invoke_alias doc ≡ prologue clang get_invoke_alias doc
  unfolding emit_manifest_prologue
  emit_manifest_prologue-text doc = refl

  -- The whole file is written, without an error, an exception or a null pointer, if no error was
  -- reported before, each exported function has a declaration with an alias, each callback for
  -- the host has a type, and no name is longer than 75 bytes: the exports, the macros over all
  -- names, and the declarations and then the definitions of all procs, up to the comments on
  -- what is missing and the last include.
  pub generate_output-whole :
      (doc : Document clang)
      → Each (HasAlias doc.mode) (doc.functions (exported doc.mode))
      → Each HasType (doc.callbacks guest_to_host)
      → ((d : ProcDirection) → Each Fits (doc.functions d) × Each Fits (doc.callbacks d))
      → generate_output clang get_invoke_alias false doc
        ≡ written (whole clang get_invoke_alias doc)
  unfolding generate_output whole
  generate_output-whole doc aliased typed fits =
      rw
        (
          emit_manifest_prologue-text doc,
          emit_exported_aliases-exports doc aliased,
          emit_foreach_macros-macros doc typed,
          emit_proc_texts-sections true doc fits,
          emit_proc_texts-sections false doc fits,
          name_comments-join (
              missing_names (doc.requested.functions guest_to_host)
                (doc.function_decls guest_to_host)),
          name_comments-join (
              missing_names (doc.requested.functions host_to_guest)
                (doc.function_decls host_to_guest)),
        )
        refl
