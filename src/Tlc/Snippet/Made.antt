-- ===== src/Tlc/Snippet/Made.antt =====
-- What a new proc of src/libs/TLCApi/ProcSnippet.cpp is made of.
use lorelei.Base.{◌≡◌, refl, ap, [], Option, none, some, Bytes, is_nil, if◌then◌else◌}
use lorelei.Tlc.Snippet.{
  ProcKind, function, callback, ProcDirection, ProcPhase, Clang, Desc, ProcSnippet, real_type,
  name_of_typedef, function_snippet, callback_snippet,
}

module _ (clang : Clang) where
  open clang use {FunctionDecl, QualType, Specialization}

  -- the type of the overlay of a descriptor, or the type without one
  abbrev pub overlaid : Option (Desc clang) → QualType → QualType
  overlaid none t = t
  overlaid (some desc) t = elim desc.overlay_type [ none ↦ t | some overlay ↦ overlay ]

  pub record IsMade (kind : ProcKind) (direction : ProcDirection) (decl : Option FunctionDecl)
      (t : QualType) (name : Bytes) (desc : Option (Desc clang))
      (definitions : ProcPhase → Option Specialization) (proc : ProcSnippet clang) : Type 0 where
    pub of_kind : proc.kind ≡ kind
    pub of_direction : proc.direction ≡ direction
    pub of_decl : proc.function_decl ≡ decl
    pub of_type : proc.function_pointer_type ≡ some t
    pub of_real_type : proc.real_function_pointer_type ≡ some (overlaid desc t)
    pub of_name : proc.name ≡ name
    pub of_desc : proc.desc ≡ desc
    pub defined : (phase : ProcPhase) → proc.definitions phase ≡ definitions phase
    pub unfilled : (phase : ProcPhase) → (proc.sources phase).function_info.return_type ≡ none

  real_type-overlaid :
      (desc : Option (Desc clang)) (t : QualType)
      → real_type clang desc (some t) ≡ some (overlaid desc t)
  real_type-overlaid none t = refl
  real_type-overlaid (some desc) t =
      elim desc.overlay_type
        as (λ o.
          elim o as (λ _. Option QualType) [ none ↦ some t | some overlay ↦ some overlay ]
          ≡ some (elim o as (λ _. QualType) [ none ↦ t | some overlay ↦ overlay ])) [
            | none ↦ refl
            | some overlay ↦ refl
          ]

  pub function_snippet-IsMade :
      (direction : ProcDirection) (fd : FunctionDecl) (name : Bytes) (desc : Option (Desc clang))
      (definitions : ProcPhase → Option Specialization)
      → IsMade function direction
          (some fd)
          (clang.pointer_type fd)
          (if is_nil name then clang.decl_name fd else name)
          desc
          definitions
          (function_snippet clang direction fd name desc definitions)
  unfolding function_snippet
  function_snippet-IsMade direction fd name desc definitions = record {
    of_kind = refl;
    of_direction = refl;
    of_decl = refl;
    of_type = refl;
    of_real_type = real_type-overlaid desc (clang.pointer_type fd);
    of_name = refl;
    of_desc = refl;
    defined = λ phase. refl;
    unfilled = λ phase. refl;
  }

  -- the name of a callback without an alias
  abbrev pub typedef_or_none : Option Bytes → Bytes
  typedef_or_none none = []
  typedef_or_none (some name) = name

  pub callback_snippet-IsMade :
      (direction : ProcDirection) (t : QualType) (name : Bytes) (desc : Option (Desc clang))
      (definitions : ProcPhase → Option Specialization)
      → IsMade callback direction none t
          (if is_nil name then typedef_or_none (clang.typedef_name t) else name)
          desc
          definitions
          (callback_snippet clang direction t name desc definitions)
  unfolding callback_snippet
  callback_snippet-IsMade direction t name desc definitions = record {
    of_kind = refl;
    of_direction = refl;
    of_decl = refl;
    of_type = refl;
    of_real_type = real_type-overlaid desc t;
    of_name = ap (λ s. if is_nil name then s else name) (named (clang.typedef_name t));
    of_desc = refl;
    defined = λ phase. refl;
    unfilled = λ phase. refl;
  }
    where
      named : (o : Option Bytes) → name_of_typedef clang o ≡ typedef_or_none o
      named none = refl
      named (some n) = refl
