-- ===== src/Tlc/CodeTemplates.antt =====
-- The code templates of src/tools/TLC/Utils/PassCodeTemplates.h, and the declaration of a function by
-- its type, of src/libs/ClangExtras/FunctionInfo.cpp.
use lorelei.Base.{
  ℕ, suc, Bool, true, false, List, [], ◌∷◌, ◌++◌, flatten, Option, none, some, Bytes, codes,
  to_string, if◌then◌else◌,
}
use lorelei.Ordered.{find}
use lorelei.Tlc.Snippet.{ProcKind, function, callback, Clang, FunctionInfo}

abbrev indent : Bytes
indent = codes "    "

abbrev end : Bytes
end = 10 ∷ []

unfoldable pub as_is : Bytes → Bytes
as_is [] = []
as_is (c ∷ s) = indent ++ (c ∷ (s ++ end))

-- the macro for the last callback of a side
abbrev last_of : Bool → Bytes
last_of true = codes "GCB"
last_of false = codes "HCB"

unfoldable pub get_callback : Bool → Bytes
get_callback is_guest =
    codes "#ifdef LORE_THUNK_CALLBACK_REPLACE"
    ++ (end
        ++ (as_is (codes "LORE_THUNK_GET_LAST_GCB(callback);")
            ++ (codes "#else"
                ++ (end
                    ++ (as_is (
                          codes "void *callback = LORE_THUNK_LAST_"
                          ++ (last_of is_guest ++ codes ";"))
                        ++ (codes "#endif" ++ end))))))

module _ (clang : Clang) where
  open clang use {
    QualType, void_type, is_void, pointer_to, type_string, type_string_with_name, view_return_type,
    view_arg_types, view_is_variadic,
  }

  abbrev pub Info : Type 0
  Info = FunctionInfo clang

  abbrev pub Args : Type 0
  Args = List (Option QualType × Bytes)

  -- `FunctionInfo(const FunctionTypeView &view)`: the arguments from number n on
  unfoldable pub named_args : ℕ → List QualType → Args
  named_args n [] = []
  named_args n (t ∷ ts) = (some t, codes "arg" ++ to_string n) ∷ named_args (suc n) ts

  abbrev pub info_of : QualType → Args → Bool → Info
  info_of t args variadic = record {
    return_type = some t;
    args = args;
    meta_arg_types = [];
    meta_ret_type = [];
    variadic = variadic;
  }

  unfoldable pub view_function_info : QualType → Info
  unfolding named_args
  view_function_info t =
      info_of (view_return_type t) (named_args 1 (view_arg_types t)) (view_is_variadic t)

  abbrev void_pointer : QualType
  void_pointer = pointer_to void_type

  abbrev packed_args : Args
  packed_args =
      (some (pointer_to void_pointer), codes "args")
      ∷ (some void_pointer, codes "ret")
      ∷ (some void_pointer, codes "metadata")
      ∷ []

  abbrev pub callback_arg : Option QualType × Bytes
  callback_arg = (some void_pointer, codes "callback")

  -- `FI_packedFunctionInfo` and `FI_packedCallbackInfo`
  abbrev pub packed_info : ProcKind → Info
  packed_info function = info_of void_type packed_args false
  packed_info callback = info_of void_type (callback_arg ∷ packed_args) false

  -- The functions below are on a return type that is not null.
  abbrev pub empty_return_decl : QualType → Bytes
  empty_return_decl t =
      if is_void t
      then []
      else indent ++ (type_string_with_name (some t) (codes "ret") ++ (codes ";" ++ end))

  abbrev pub return_ret : QualType → Bytes
  return_ret t = if is_void t then [] else as_is (codes "return ret;")

  abbrev pub ret_extract_decl : QualType → Bytes
  ret_extract_decl t =
      if is_void t
      then []
      else indent
        ++ (codes "auto &ret_ref = *(" ++ (type_string (pointer_to t) ++ (codes ") ret;" ++ end)))

  unfoldable pub more_names : Args → Bytes
  more_names [] = []
  more_names ((t, name) ∷ args) = codes ", " ++ (name ++ more_names args)

  abbrev pub call_list : Args → Bytes
  call_list [] = []
  call_list ((t, name) ∷ args) = name ++ more_names args

  unfoldable pub call_list_assign : QualType → Args → Bytes → Bytes → Bytes
  unfolding more_names
  call_list_assign t args func lval =
      indent
      ++ ((if is_void t then [] else lval ++ codes " = ")
          ++ (func ++ (codes "(" ++ (call_list args ++ (codes ");" ++ end)))))

  -- the address of an argument, by its name
  abbrev pub address_line : Option QualType × Bytes → Bytes
  address_line (t, name) =
      indent ++ (indent ++ (codes "(void *) &" ++ (name ++ (codes "," ++ end))))

  unfoldable pub address_lines : Args → List Bytes
  address_lines [] = []
  address_lines (a ∷ args) = address_line a ∷ address_lines args

  unfoldable pub arg_ptr_list_decl : Args → Bytes
  unfolding address_lines
  arg_ptr_list_decl args =
      indent
      ++ (codes "void *args[] = {"
          ++ (end ++ (flatten (address_lines args) ++ (indent ++ (codes "};" ++ end)))))

  -- the type that the slot of an argument is read at; without a spelling of its own that is empty
  abbrev pub slot_type : Info → Option QualType × Bytes → Bytes
  slot_type info (some t, name) = type_string (pointer_to t)
  slot_type info (none, name) = elim (find name info.meta_arg_types) [
    | none ↦ codes " *"
    | some meta ↦ meta ++ codes " *"
  ]

  -- an argument that is read from its slot
  abbrev pub slot_line : Info → ℕ → Option QualType × Bytes → Bytes
  slot_line info i a =
      indent
      ++ (codes "auto &"
          ++ (a.1
              ++ (codes " = *("
                  ++ (slot_type info a
                      ++ (codes ") args[" ++ (to_string i ++ (codes "];" ++ end)))))))

  unfoldable pub slot_lines : Info → ℕ → Args → List Bytes
  slot_lines info i [] = []
  slot_lines info i (a ∷ args) = slot_line info i a ∷ slot_lines info (suc i) args

  unfoldable pub arg_ptr_list_extract_decl : Info → Bytes
  unfolding slot_lines
  arg_ptr_list_extract_decl info = flatten (slot_lines info 0 info.args)
