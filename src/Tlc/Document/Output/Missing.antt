-- ===== src/Tlc/Document/Output/Missing.antt =====
-- The names in the comments on missing declarations.
use lorelei.Base.{
  ◌≡◌, refl, ◌∙◌, Bool, false, ◌&&◌, ◌||◌, not, List, [], ◌∷◌, Option, none, some, Bytes, equal,
  equal_iff, equal_refl, is_some, if◌then◌else◌, arith, Bool-cases, inl, inr,
}
use lorelei.Ordered.{Map, Set, find}
use lorelei.Ordered.Laws.{IsSorted}
use lorelei.Tlc.Snippet.{ProcDirection, Clang}
use lorelei.Tlc.Document.{Document, Collected, collect, function_proc}
use lorelei.Tlc.Document.Procs.{IsFresh, kept, find-collect_functions, collect-function_decls}
use lorelei.Tlc.Document.Output.{missing_names}

-- the text is in the list
unfoldable pub member : Bytes → List Bytes → Bool
member name [] = false
member name (x ∷ xs) = equal name x || member name xs

module _ (clang : Clang) where
  member-missing_names :
      (requested : Set) (decls : Map clang.FunctionDecl) (name : Bytes)
      → member name (missing_names requested decls)
        ≡ (is_some (find name requested) && not (is_some (find name decls)))
  unfolding member missing_names find is_some
  member-missing_names [] decls name = refl
  member-missing_names ((k, u) ∷ requested) decls name = elim (Bool-cases (equal name k)) [
    | inl same ↦
        rw ((equal_iff name k).0 same, equal_refl)
          (ground (arith, member-missing_names requested decls k, equal_refl k))
    | inr other ↦ rw other (ground (arith, member-missing_names requested decls name))
  ]

  reported :
      {P : Type 0} (requested : Set) (name : Bytes) (o : Option clang.FunctionDecl)
      (f : clang.FunctionDecl → P)
      → (is_some (find name requested) && not (is_some (kept clang requested name o none))) ≡ (
          is_some (find name requested)
          && not (
              is_some (
                if is_some (find name requested)
                then elim o as (λ _. Option P) [ none ↦ none | some fd ↦ some (f fd) ]
                else none)))
  unfolding is_some
  reported requested name none f = ground arith
  reported requested name (some fd) f = ground arith

  -- In a new document, the comments on missing declarations list a name exactly if it is
  -- requested and no proc was collected for it: each requested function is served or reported,
  -- never both.
  pub collect-missing_names :
      (collected : Collected clang) (doc : Document clang)
      → IsFresh clang doc
      → IsSorted collected.function_by_name
      → (d : ProcDirection) (name : Bytes)
      → member name (
          missing_names
            (doc.requested.functions d)
            ((collect clang collected doc).function_decls d))
        ≡ (is_some (find name (doc.requested.functions d))
            && not (is_some (find name ((collect clang collected doc).functions d))))
  collect-missing_names collected doc fresh sorted d name =
      member-missing_names (doc.requested.functions d) _ name
      ∙ rw
          (
            find-collect_functions clang collected doc fresh sorted d name,
            collect-function_decls clang collected doc fresh sorted d name,
          )
          (reported (doc.requested.functions d) name _ (function_proc clang collected d name))
