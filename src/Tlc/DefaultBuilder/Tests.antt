-- ===== src/Tlc/DefaultBuilder/Tests.antt =====
-- Runs and instances for Tlc/DefaultBuilder.
use lorelei.Base.{
  ◌≡◌, refl, false, [], ◌∷◌, ◌++◌, none, some, Bytes, codes, equal, get_elem?, to_string,
}
use lorelei.Tlc.Snippet.{guest_to_host, Clang, FunctionInfo, ProcSnippet, function_snippet}
use lorelei.Tlc.CodeTemplates.{view_function_info, slot_lines}

-- a function of an int and a pointer
abbrev texts : Clang
texts = record {
  FunctionDecl = Bytes;
  QualType = Bytes;
  Specialization = Unit {0};
  decl_name = λ fd. fd;
  pointer_type = λ fd. codes "int (*)(int, char *)";
  typedef_name = λ t. none;
  type_string = λ t. t;
  type_string_with_name = λ t name. elim t [ none ↦ name | some s ↦ s ++ (codes " " ++ name) ];
  type_string_decompound = λ t. t;
  return_type = λ fd. codes "int";
  parameters = λ fd. [];
  is_variadic = λ fd. false;
  void_type = codes "void";
  is_void = λ t. equal t (codes "void");
  pointer_to = λ t. t ++ codes " *";
  view_return_type = λ t. codes "int";
  view_arg_types = λ t. codes "int" ∷ codes "char *" ∷ [];
  view_is_variadic = λ t. false;
}

abbrev draw : ProcSnippet texts
draw = function_snippet texts guest_to_host (codes "draw") [] none (λ phase. none)

abbrev draw_type : Bytes
draw_type = codes "int (*)(int, char *)"

abbrev draw_info : FunctionInfo texts
draw_info = view_function_info texts draw_type

second_slot :
    get_elem? (slot_lines texts draw_info 0 draw_info.args) 1
    ≡ some (codes "    auto &arg2 = *(char * *) args[1];" ++ 10 ∷ [])
unfolding slot_lines view_function_info to_string
second_slot = refl
