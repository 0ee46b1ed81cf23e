-- ===== src/Tlc/Document.antt =====
-- The collection of `DocumentContext::beginProcessDocument` in src/libs/TLCApi/DocumentContext.cpp:
-- what is declared and requested becomes the procs of the document. What the matchers found in the
-- translation unit is a parameter.
mod Tests
pub mod Procs
pub mod Aliases
pub mod Output
use lorelei.Base.{
  Bool, true, false, ◌||◌, ◌&&◌, not, List, [], ◌∷◌, Option, none, some, Bytes, codes, is_nil,
  is_some, equal, if◌then◌else◌,
}
use lorelei.Ordered.{Map, Set, find, update, assign, insert}
use lorelei.Tlc.Snippet.{
  ProcKind, function, callback, ProcDirection, guest_to_host, host_to_guest, ProcPhase, Clang, Line,
  Desc, ProcSnippet, function_snippet, callback_snippet,
}

pub data Mode : Type 0 where
  guest host : Mode

-- What the caller asks for; callbacks are aliases by signature.
pub record RequestedProcData : Type 0 where
  pub functions : ProcDirection → Set
  pub callbacks : Map Bytes

pub record DocumentSource : Type 0 where
  pub properties : Map Bytes
  pub head : List Line
  pub tail : List Line

-- some callback is requested under the alias
unfoldable pub has_alias : Bytes → Map Bytes → Bool
has_alias alias [] = false
has_alias alias ((signature, name) ∷ callbacks) = equal name alias || has_alias alias callbacks

unfoldable pub is_requested : Map Bytes → Bytes → Bytes → Bool
unfolding has_alias
is_requested callbacks signature alias =
    is_some (find signature callbacks) || (not (is_nil alias) && has_alias alias callbacks)

module _ (clang : Clang) where
  open clang use {FunctionDecl, QualType, Specialization}

  pub record FunctionPointerTypeInfo : Type 0 where
    pub pointer_type : QualType
    pub name : Bytes

  -- What the matchers found. `initialize_alias_maker` is none without a template `ProcFn`, and
  -- else what the initialization of the alias maker with it reports.
  pub record Collected : Type 0 where
    pub initialize_alias_maker : Option (Option Bytes)
    pub function_by_name : Map FunctionDecl
    pub named_callback_by_signature : Map FunctionPointerTypeInfo
    pub function_desc_by_name : Map (Desc clang)
    pub callback_desc_by_signature : Map (Desc clang)
    pub proc_fn_decl_by_name : ProcDirection → ProcPhase → Map Specialization
    pub proc_cb_decl_by_signature : ProcDirection → ProcPhase → Map Specialization

  pub record Document : Type 0 where
    pub mode : Mode
    pub pre_include_file_name : Bytes
    pub main_file_name : Bytes
    pub requested : RequestedProcData
    pub function_decls : ProcDirection → Map FunctionDecl
    pub callback_types : Map FunctionPointerTypeInfo
    pub source : DocumentSource
    pub functions : ProcDirection → Map (ProcSnippet clang)
    pub callbacks : ProcDirection → Map (ProcSnippet clang)

  -- A declared function is kept on the sides on which it is requested.
  unfoldable pub keep_functions :
      (ProcDirection → Set)
      → Map FunctionDecl
      → (ProcDirection → Map FunctionDecl)
      → ProcDirection
      → Map FunctionDecl
  keep_functions requested [] decls = decls
  keep_functions requested ((name, fd) ∷ declared) decls =
      keep_functions requested declared
        (λ d. if is_some (find name (requested d)) then assign name fd (decls d) else decls d)

  unfoldable pub keep_callbacks :
      Map Bytes
      → Map FunctionPointerTypeInfo
      → Map FunctionPointerTypeInfo
      → Map FunctionPointerTypeInfo
  unfolding is_requested
  keep_callbacks requested [] types = types
  keep_callbacks requested ((signature, info) ∷ named) types =
      keep_callbacks requested named
        (if is_requested requested signature info.name then assign signature info types else types)

  abbrev pub function_proc : Collected → ProcDirection → Bytes → FunctionDecl → ProcSnippet clang
  function_proc collected d name fd =
      function_snippet clang d fd name (find name collected.function_desc_by_name)
        (λ phase. find name (collected.proc_fn_decl_by_name d phase))

  unfoldable pub add_functions :
      Collected
      → ProcDirection
      → Map FunctionDecl
      → Map (ProcSnippet clang)
      → Map (ProcSnippet clang)
  add_functions collected d [] procs = procs
  add_functions collected d ((name, fd) ∷ decls) procs =
      add_functions collected d decls (insert name (function_proc collected d name fd) procs)

  -- A callback stands under its alias, without one under its signature.
  abbrev pub callback_key : Bytes → FunctionPointerTypeInfo → Bytes
  callback_key signature info = if is_nil info.name then signature else info.name

  abbrev pub callback_proc :
      Collected → ProcDirection → Bytes → FunctionPointerTypeInfo → ProcSnippet clang
  callback_proc collected d signature info =
      callback_snippet clang d info.pointer_type info.name
        (find signature collected.callback_desc_by_signature)
        (λ phase. find signature (collected.proc_cb_decl_by_signature d phase))

  unfoldable pub add_callbacks :
      Collected
      → Map FunctionPointerTypeInfo
      → (ProcDirection → Map (ProcSnippet clang))
      → ProcDirection
      → Map (ProcSnippet clang)
  add_callbacks collected [] procs = procs
  add_callbacks collected ((signature, info) ∷ types) procs = add_callbacks collected types (λ d.
      insert (callback_key signature info) (callback_proc collected d signature info) (procs d))

  -- The filtered items and their procs.
  unfoldable pub collect : Collected → Document → Document
  unfolding keep_functions keep_callbacks add_functions add_callbacks
  collect collected doc =
      let decls =
        keep_functions doc.requested.functions collected.function_by_name doc.function_decls in
      let types =
        keep_callbacks doc.requested.callbacks collected.named_callback_by_signature
          doc.callback_types in
      record doc {
        function_decls = decls;
        callback_types = types;
        functions = λ d. add_functions collected d (decls d) (doc.functions d);
        callbacks = add_callbacks collected types doc.callbacks;
      }

  -- The document before the hooks of the passes, and the error that keeps them from running.
  unfoldable pub begin_process_document : Collected → Document → Document × Option Bytes
  unfolding collect
  begin_process_document collected doc = elim collected.initialize_alias_maker [
    | none ↦ (doc, some (codes "ProcFn template declaration not found"))
    | some (some error) ↦ (doc, some error)
    | some none ↦ (collect collected doc, none)
  ]
