-- ===== src/Tlc/Document/Output/Collected.antt =====
-- The output of a document that was just collected.
use lorelei.Base.{
  ◌≡◌, refl, sym, subst, false, ◌⊎◌, inl, inr, [], ◌∷◌, Option, Bytes, codes, Bool-cases,
}
use lorelei.Ordered.{Map, update, insert}
use lorelei.Ordered.Order.{less}
use lorelei.Tlc.Snippet.{
  ProcDirection, guest_to_host, Clang, ProcSnippet, function_snippet, callback_snippet,
}
use lorelei.Tlc.Document.{
  Document, Collected, FunctionPointerTypeInfo, add_functions, add_callbacks, collect,
  function_proc, callback_proc, callback_key,
}
use lorelei.Tlc.Document.Procs.{IsFresh}
use lorelei.Tlc.Document.Output.{written, generate_output}
use lorelei.Tlc.Document.Output.Whole.{exported, side_name, whole}
use lorelei.Tlc.Document.Output.Complete.{Each, Fits, HasAlias, HasType, generate_output-whole}

module _ (clang : Clang)
    (get_invoke_alias : Bytes
      → Bytes
      → clang.FunctionDecl
      → Option clang.QualType
      → Bytes ⊎ Bytes) where
  Each-insert :
      (P : ProcSnippet clang → Type 0) (k : Bytes) (proc : ProcSnippet clang)
      (m : Map (ProcSnippet clang))
      → P proc
      → Each clang get_invoke_alias P m
      → Each clang get_invoke_alias P (insert k proc m)
  unfolding update
  Each-insert P k proc [] p all = (p, tt)
  Each-insert P k proc ((j, w) ∷ m) p all = elim (Bool-cases (less k j)) [
    | inl before ↦ rw before (p, all)
    | inr later ↦ elim (Bool-cases (less j k)) [
      | inl behind ↦ rw (later, behind) (all.0, Each-insert P k proc m p all.1)
      | inr same ↦ rw (later, same) all
    ]
  ]

  Each-add_functions :
      (P : ProcSnippet clang → Type 0) (collected : Collected clang) (d : ProcDirection)
      → ((name : Bytes) (fd : clang.FunctionDecl) → P (function_proc clang collected d name fd))
      → (decls : Map clang.FunctionDecl) (procs : Map (ProcSnippet clang))
      → Each clang get_invoke_alias P procs
      → Each clang get_invoke_alias P (add_functions clang collected d decls procs)
  unfolding add_functions
  Each-add_functions P collected d h [] procs all = all
  Each-add_functions P collected d h ((name, fd) ∷ decls) procs all =
      Each-add_functions P collected d h decls _ (Each-insert P name _ procs (h name fd) all)

  Each-add_callbacks :
      (P : ProcSnippet clang → Type 0) (collected : Collected clang) (d : ProcDirection)
      → ((signature : Bytes) (info : FunctionPointerTypeInfo clang)
          → P (callback_proc clang collected d signature info))
      → (types : Map (FunctionPointerTypeInfo clang))
        (procs : ProcDirection → Map (ProcSnippet clang))
      → Each clang get_invoke_alias P (procs d)
      → Each clang get_invoke_alias P (add_callbacks clang collected types procs d)
  unfolding add_callbacks
  Each-add_callbacks P collected d h [] procs all = all
  Each-add_callbacks P collected d h ((signature, info) ∷ types) procs all =
      Each-add_callbacks P collected d h types _
        (Each-insert P (callback_key clang signature info) _ (procs d) (h signature info) all)

  -- Of a new document with what it has collected, the whole file is written, without an error,
  -- an exception or a null pointer, if there is an alias for each function and no name is longer
  -- than 75 bytes.
  pub collect-whole :
      (collected : Collected clang) (doc : Document clang)
      → IsFresh clang doc
      → ((direction : Bytes) (fd : clang.FunctionDecl) (overlay : Option clang.QualType)
          → (alias : Bytes) × (get_invoke_alias direction (codes "Entry") fd overlay ≡ inl alias))
      → ((d : ProcDirection)
          → Each clang get_invoke_alias
              (Fits clang get_invoke_alias)
              ((collect clang collected doc).functions d)
            × Each clang get_invoke_alias
                (Fits clang get_invoke_alias)
                ((collect clang collected doc).callbacks d))
      → generate_output clang get_invoke_alias false (collect clang collected doc)
        ≡ written (whole clang get_invoke_alias (collect clang collected doc))
  unfolding collect function_snippet callback_snippet
  collect-whole collected doc fresh aliased fits =
      let d = exported doc.mode in
      generate_output-whole clang get_invoke_alias (collect clang collected doc)
        (Each-add_functions (HasAlias clang get_invoke_alias doc.mode) collected d
          (λ name fd. let (alias, e) = aliased (side_name doc.mode) fd _ in (fd, alias, refl, e))
          ((collect clang collected doc).function_decls d) (doc.functions d)
          (subst (Each clang get_invoke_alias _) (sym (fresh.2 d)) tt))
        (Each-add_callbacks (HasType clang get_invoke_alias) collected guest_to_host
          (λ signature info. (info.pointer_type, refl)) (collect clang collected doc).callback_types
          doc.callbacks (subst (Each clang get_invoke_alias _) (sym (fresh.3 guest_to_host)) tt))
        fits
