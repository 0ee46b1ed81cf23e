-- ===== src/Tlc/Snippet.antt =====
-- A proc of the thunk compiler and its text: `ProcSnippet` of src/libs/TLCApi/ProcSnippet.cpp,
-- `FunctionInfo` of src/libs/ClangExtras/FunctionInfo.cpp and `SourceLineList` of
-- include/lorelei/ClangExtras/SourceLineList.h. What Clang tells of declarations and types is a
-- parameter; a null type is `none`.
pub mod Text
pub mod Made
use lorelei.Base.{
  ℕ, zero, suc, ◌==◌, Bool, true, false, List, [], ◌∷◌, ◌++◌, map, flatten, Option, none, some, ℤ,
  Bytes, codes, is_nil, to_string, if◌then◌else◌,
}
use lorelei.Ordered.{Map, find}

pub data ProcKind : Type 0 where
  function callback : ProcKind

pub data ProcDirection : Type 0 where
  guest_to_host host_to_guest : ProcDirection

-- the phases that the generator emits
pub data ProcPhase : Type 0 where
  entry adapt caller : ProcPhase

pub record Clang : Type 1 where
  pub FunctionDecl : Type 0
  pub QualType : Type 0
  -- explicit specializations of templates
  pub Specialization : Type 0
  -- `getNameAsString()`
  pub decl_name : FunctionDecl → Bytes
  -- `getPointerType(FD->getType().getCanonicalType())`
  pub pointer_type : FunctionDecl → QualType
  -- the name of the typedef that the type is
  pub typedef_name : QualType → Option Bytes
  pub type_string : QualType → Bytes
  -- `getTypeStringWithName` and `getTypeStringDecompound`, also of a null type
  pub type_string_with_name : Option QualType → Bytes → Bytes
  pub type_string_decompound : QualType → Bytes
  pub return_type : FunctionDecl → QualType
  -- the parameters with their types and names
  pub parameters : FunctionDecl → List (QualType × Bytes)
  pub is_variadic : FunctionDecl → Bool
  pub void_type : QualType
  pub is_void : QualType → Bool
  pub pointer_to : QualType → QualType
  -- `FunctionTypeView` of a type of function pointers
  pub view_return_type : QualType → QualType
  pub view_arg_types : QualType → List QualType
  pub view_is_variadic : QualType → Bool

-- `SourceLineList::Line`
pub record Line : Type 0 where
  pub id : Bytes
  pub text : Bytes

abbrev pub push_back : Line → List Line → List Line
push_back line lines = if is_nil line.text then lines else lines ++ line ∷ []

abbrev pub push_front : Line → List Line → List Line
push_front line lines = if is_nil line.text then lines else line ∷ lines

-- A newline behind a text that lacks one.
unfoldable pub end_line : Bytes → Bytes
end_line [] = []
end_line (c ∷ []) = if c == 10 then c ∷ [] else c ∷ 10 ∷ []
end_line (c ∷ d ∷ s) = c ∷ end_line (d ∷ s)

unfoldable pub to_raw_text : List Line → Bytes
unfolding end_line
to_raw_text [] = []
to_raw_text (line ∷ lines) = end_line line.text ++ to_raw_text lines

module _ (clang : Clang) where
  open clang use {
    FunctionDecl, QualType, Specialization, decl_name, pointer_type, typedef_name,
    type_string_with_name, type_string_decompound, return_type, parameters, is_variadic,
  }

  pub record FunctionInfo : Type 0 where
    pub return_type : Option QualType
    pub args : List (Option QualType × Bytes)
    pub meta_arg_types : Map Bytes
    pub meta_ret_type : Bytes
    pub variadic : Bool

  abbrev pub no_function_info : FunctionInfo
  no_function_info = record {
    return_type = none;
    args = [];
    meta_arg_types = [];
    meta_ret_type = [];
    variadic = false;
  }

  -- `FunctionInfo(const clang::FunctionDecl *FD)`
  abbrev pub decl_function_info : FunctionDecl → FunctionInfo
  decl_function_info fd = record {
    return_type = some (clang.return_type fd);
    args = map (λ p. (some p.0, p.1)) (parameters fd);
    meta_arg_types = [];
    meta_ret_type = [];
    variadic = is_variadic fd;
  }

  -- `getArgDecl`
  abbrev pub arg_decl : Map Bytes → Option QualType × Bytes → Bytes
  arg_decl metas (some t, name) = type_string_with_name (some t) name
  arg_decl metas (none, name) = elim (find name metas) [
    | some meta ↦ meta ++ (codes " " ++ name)
    | none ↦ type_string_with_name none name
  ]

  -- the arguments behind the first
  unfoldable pub more_args : Map Bytes → List (Option QualType × Bytes) → Bytes
  more_args metas [] = []
  more_args metas (a ∷ rest) = codes ", " ++ (arg_decl metas a ++ more_args metas rest)

  abbrev pub all_args : Map Bytes → List (Option QualType × Bytes) → Bytes
  all_args metas [] = []
  all_args metas (a ∷ rest) = arg_decl metas a ++ more_args metas rest

  abbrev pub ellipsis : Bool → List (Option QualType × Bytes) → Bytes
  ellipsis true [] = codes "..."
  ellipsis true (a ∷ rest) = codes ", ..."
  ellipsis false args = []

  abbrev pub ret_text : Option QualType → Bytes → Bytes
  ret_text none meta = meta
  ret_text (some t) meta = type_string_decompound t

  unfoldable pub decl_text : FunctionInfo → Bytes → Bytes
  unfolding more_args
  decl_text info name =
      ret_text info.return_type info.meta_ret_type
      ++ (codes " "
          ++ (name
              ++ (codes "("
                  ++ (all_args info.meta_arg_types info.args
                      ++ (ellipsis info.variadic info.args ++ codes ")")))))

  -- `ProcSnippet::PassInfo`
  pub record PassInfo : Type 0 where
    pub id : ℤ
    pub pass_type : QualType

  -- `ProcSnippet::Desc`
  pub record Desc : Type 0 where
    pub overlay_type : Option QualType
    pub builder_pass : Option PassInfo
    pub passes : List PassInfo

  pub record FunctionBodySource : Type 0 where
    pub prolog : List Line
    pub forward : List Line
    pub center : List Line
    pub backward : List Line
    pub epilog : List Line

  pub record ProcSource : Type 0 where
    pub function_info : FunctionInfo
    pub head : List Line
    pub body : FunctionBodySource
    pub tail : List Line

  abbrev pub no_source : ProcSource
  no_source = record {
    function_info = no_function_info;
    head = [];
    body = record { prolog = []; forward = []; center = []; backward = []; epilog = [] };
    tail = [];
  }

  -- The source it was built from is a declaration or a type of function pointers.
  pub record ProcSnippet : Type 0 where
    pub kind : ProcKind
    pub direction : ProcDirection
    pub function_decl : Option FunctionDecl
    pub function_pointer_type : Option QualType
    pub desc : Option Desc
    pub definitions : ProcPhase → Option Specialization
    pub name : Bytes
    pub real_function_pointer_type : Option QualType
    pub sources : ProcPhase → ProcSource

  -- the name that a callback without a hint takes
  abbrev pub name_of_typedef : Option Bytes → Bytes
  name_of_typedef none = []
  name_of_typedef (some name) = name

  abbrev pub real_type : Option Desc → Option QualType → Option QualType
  real_type none t = t
  real_type (some d) t = elim d.overlay_type [ none ↦ t | some overlay ↦ some overlay ]

  -- the constructors, each with its part of `initialize`
  unfoldable pub function_snippet :
      ProcDirection
      → FunctionDecl
      → Bytes
      → Option Desc
      → (ProcPhase → Option Specialization)
      → ProcSnippet
  function_snippet direction fd hint desc definitions = record {
    kind = function;
    direction = direction;
    function_decl = some fd;
    function_pointer_type = some (pointer_type fd);
    desc = desc;
    definitions = definitions;
    name = if is_nil hint then decl_name fd else hint;
    real_function_pointer_type = real_type desc (some (pointer_type fd));
    sources = λ phase. no_source;
  }

  unfoldable pub callback_snippet :
      ProcDirection
      → QualType
      → Bytes
      → Option Desc
      → (ProcPhase → Option Specialization)
      → ProcSnippet
  callback_snippet direction t hint desc definitions = record {
    kind = callback;
    direction = direction;
    function_decl = none;
    function_pointer_type = some t;
    desc = desc;
    definitions = definitions;
    name = if is_nil hint then name_of_typedef (typedef_name t) else hint;
    real_function_pointer_type = real_type desc (some t);
    sources = λ phase. no_source;
  }
