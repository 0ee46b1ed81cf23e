-- ===== src/Tlc/Document/Procs.antt =====
-- The procs that a document collects: one for each function that is requested and declared.
use lorelei.Base.{
  Bool, true, false, is_nil, ◌≡◌, refl, ◌∙◌, sym, subst, inl, inr, [], ◌∷◌, Option, none, some,
  Bytes, equal, equal_iff, is_some, if◌then◌else◌, Bool-cases, arith,
}
use lorelei.Ordered.{Map, Set, find, assign, keep_old}
use lorelei.Ordered.Laws.{IsSorted, update-IsSorted, find-update, find-Before}
use lorelei.Tlc.Snippet.Made.{IsMade, function_snippet-IsMade}
use lorelei.Tlc.Snippet.{function, ProcDirection, Clang, ProcSnippet}
use lorelei.Tlc.Document.{
  Document, Collected, keep_functions, add_functions, collect, function_proc,
}

module _ (clang : Clang) where
  open clang use {FunctionDecl}

  -- what is kept of the declaration of a name
  abbrev pub kept : Set → Bytes → Option FunctionDecl → Option FunctionDecl → Option FunctionDecl
  kept requested name none old = old
  kept requested name (some fd) old = if is_some (find name requested) then some fd else old

  kept-new :
      {P : Type 0} (requested : Set) (name : Bytes) (o : Option FunctionDecl) (f : FunctionDecl → P)
      → elim (kept requested name o none) as (λ _. Option P) [ none ↦ none | some fd ↦ some (f fd) ]
        ≡ (if is_some (find name requested)
            then elim o as (λ _. Option P) [ none ↦ none | some fd ↦ some (f fd) ]
            else none)
  kept-new requested name none f = ground arith
  kept-new requested name (some fd) f = elim (Bool-cases (is_some (find name requested))) [
    | inl is_in ↦ rw is_in refl
    | inr is_out ↦ rw is_out refl
  ]

  -- one step of the loop
  abbrev keep_one : Set → Bytes → FunctionDecl → Map FunctionDecl → Map FunctionDecl
  keep_one requested k fd m = if is_some (find k requested) then assign k fd m else m

  keep_one-IsSorted :
      (requested : Set) (k : Bytes) (fd : FunctionDecl) (m : Map FunctionDecl)
      → IsSorted m
      → IsSorted (keep_one requested k fd m)
  keep_one-IsSorted requested k fd m s = elim (Bool-cases (is_some (find k requested))) [
    | inl is_in ↦ rw is_in (update-IsSorted k _ m s)
    | inr is_out ↦ rw is_out s
  ]

  find-keep_one :
      (requested : Set) (k name : Bytes) (fd : FunctionDecl) (declared m : Map FunctionDecl)
      → IsSorted {V = FunctionDecl} ((k, fd) ∷ declared)
      → IsSorted m
      → kept requested name (find name declared) (find name (keep_one requested k fd m))
        ≡ kept requested name (if equal name k then some fd else find name declared) (find name m)
  find-keep_one requested k name fd declared m t s =
      ground (arith, equal_iff name k, find-Before k declared t.0, find-update k name (λ _. fd) m s)

  pub keep_functions-IsSorted :
      (requested : ProcDirection → Set) (declared : Map FunctionDecl)
      (decls : ProcDirection → Map FunctionDecl) (d : ProcDirection)
      → IsSorted (decls d)
      → IsSorted (keep_functions clang requested declared decls d)
  unfolding keep_functions
  keep_functions-IsSorted requested [] decls d s = s
  keep_functions-IsSorted requested ((name, fd) ∷ declared) decls d s =
      keep_functions-IsSorted requested declared _ d
        (keep_one-IsSorted (requested d) name fd (decls d) s)

  pub find-keep_functions :
      (requested : ProcDirection → Set) (declared : Map FunctionDecl)
      (decls : ProcDirection → Map FunctionDecl) (d : ProcDirection) (name : Bytes)
      → IsSorted declared
      → IsSorted (decls d)
      → find name (keep_functions clang requested declared decls d)
        ≡ kept (requested d) name (find name declared) (find name (decls d))
  unfolding keep_functions find
  find-keep_functions requested [] decls d name t s = refl
  find-keep_functions requested ((k, fd) ∷ declared) decls d name t s =
      find-keep_functions requested declared _ d name t.1
        (keep_one-IsSorted (requested d) k fd (decls d) s)
      ∙ find-keep_one (requested d) k name fd declared (decls d) t s

  pub find-add_functions :
      (collected : Collected clang) (d : ProcDirection) (decls : Map FunctionDecl)
      (procs : Map (ProcSnippet clang)) (name : Bytes)
      → IsSorted procs
      → find name (add_functions clang collected d decls procs) ≡ elim (find name procs) [
        | some p ↦ some p
        | none ↦ elim (find name decls) [
          | none ↦ none
          | some fd ↦ some (function_proc clang collected d name fd)
        ]
      ]
  unfolding add_functions find
  find-add_functions collected d [] procs name s =
      elim (find name procs) as (λ o. o ≡ elim o [ some p ↦ some p | none ↦ none ]) [
        | none ↦ refl
        | some p ↦ refl
      ]
  find-add_functions collected d ((k, fd) ∷ decls) procs name s =
      find-add_functions collected d decls _ name (update-IsSorted k _ procs s)
      ∙ ground (
        arith,
        find-update k name (keep_old k (function_proc clang collected d k fd)) procs s,
        equal_iff name k,
      )

  -- A document that nothing was collected for yet.
  abbrev pub IsFresh : Document clang → Type 0
  IsFresh doc =
      ((d : ProcDirection) → doc.function_decls d ≡ [])
      × (doc.callback_types ≡ [])
      × ((d : ProcDirection) → doc.functions d ≡ [])
      × ((d : ProcDirection) → doc.callbacks d ≡ [])

  pub collect-function_decls :
      (collected : Collected clang) (doc : Document clang)
      → IsFresh doc
      → IsSorted collected.function_by_name
      → (d : ProcDirection) (name : Bytes)
      → find name ((collect clang collected doc).function_decls d)
        ≡ kept (doc.requested.functions d) name (find name collected.function_by_name) none
  unfolding find collect
  collect-function_decls collected doc fresh sorted d name =
      find-keep_functions doc.requested.functions collected.function_by_name doc.function_decls d
        name sorted (subst IsSorted (sym (fresh.0 d)) tt)
      ∙ rw (fresh.0 d) refl

  pub find-collect_functions :
      (collected : Collected clang) (doc : Document clang)
      → IsFresh doc
      → IsSorted collected.function_by_name
      → (d : ProcDirection) (name : Bytes)
      → find name ((collect clang collected doc).functions d) ≡ (
          if is_some (find name (doc.requested.functions d))
          then elim (find name collected.function_by_name) [
            | none ↦ none
            | some fd ↦ some (function_proc clang collected d name fd)
          ]
          else none)
  unfolding find collect
  find-collect_functions collected doc fresh sorted d name =
      let no_decls : IsSorted (doc.function_decls d) = subst IsSorted (sym (fresh.0 d)) tt in
      let no_procs : IsSorted (doc.functions d) = subst IsSorted (sym (fresh.2 d)) tt in
      let requested = doc.requested.functions in
      let decls = keep_functions clang requested collected.function_by_name doc.function_decls in
      find-add_functions collected d (decls d) (doc.functions d) name no_procs
      ∙ rw
          (
            fresh.2 d,
            find-keep_functions requested collected.function_by_name doc.function_decls d name
                sorted no_decls,
            fresh.0 d,
          )
          (kept-new (requested d) name (find name collected.function_by_name)
            (function_proc clang collected d name))

  -- What is there under a name: the proc of its declaration, made with the descriptor of the name
  -- and the definitions of the side, if it is requested and declared.
  pub data Serves (collected : Collected clang) (d : ProcDirection) (name : Bytes)
      : Bool → Option FunctionDecl → Option (ProcSnippet clang) → Type 0 where
    served :
        {fd : FunctionDecl} {proc : ProcSnippet clang}
        → IsMade clang function d
            (some fd)
            (clang.pointer_type fd)
            (if is_nil name then clang.decl_name fd else name)
            (find name collected.function_desc_by_name)
            (λ phase. find name (collected.proc_fn_decl_by_name d phase))
            proc
        → Serves collected d name true (some fd) (some proc)
    not_declared : Serves collected d name true none none
    not_requested : {decl : Option FunctionDecl} → Serves collected d name false decl none

  serves :
      (collected : Collected clang) (d : ProcDirection) (name : Bytes) (requested : Bool)
      (decl : Option FunctionDecl)
      → Serves collected d name requested decl (
          if requested
          then elim decl as (λ _. Option (ProcSnippet clang)) [
            | none ↦ none
            | some fd ↦ some (function_proc clang collected d name fd)
          ]
          else none)
  serves collected d name false decl = not_requested
  serves collected d name true none = not_declared
  serves collected d name true (some fd) = served (function_snippet-IsMade clang d fd name _ _)

  -- In a new document, the proc of a function is there under its name on the sides where it is
  -- requested, if the translation unit declares it: made of its declaration, with the descriptor
  -- of the name and the definitions of the side. There is no other.
  pub collect-functions :
      (collected : Collected clang) (doc : Document clang)
      → IsFresh doc
      → IsSorted collected.function_by_name
      → (d : ProcDirection) (name : Bytes)
      → Serves collected d name
          (is_some (find name (doc.requested.functions d)))
          (find name collected.function_by_name)
          (find name ((collect clang collected doc).functions d))
  collect-functions collected doc fresh sorted d name =
      subst
        (Serves collected d name (is_some (find name (doc.requested.functions d)))
          (find name collected.function_by_name))
        (sym (find-collect_functions collected doc fresh sorted d name))
        (serves collected d name _ _)
