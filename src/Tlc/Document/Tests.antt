-- ===== src/Tlc/Document/Tests.antt =====
-- Runs and instances for Tlc/Document.
use lorelei.Base.{
  ℕ, ◌≡◌, refl, false, not, ◌&&◌, ◌⊎◌, inl, [], ◌∷◌, ◌++◌, Option, none, some, Bytes, codes,
  is_some, equal, arith,
}
use lorelei.Ordered.{Set, find, update}
use lorelei.Ordered.Order.{less}
use lorelei.Ordered.Laws.{IsSorted}
use lorelei.Tlc.Snippet.{
  ProcDirection, guest_to_host, host_to_guest, entry, adapt, caller, Clang, function_snippet,
  callback_snippet,
}
use lorelei.Tlc.Document.{guest, Document, Collected, FunctionPointerTypeInfo, collect}
use lorelei.Tlc.Document.Procs.{IsFresh, Serves, collect-functions}
use lorelei.Tlc.Document.Aliases.{KeptType, FirstProc, collect-callbacks}
use lorelei.Tlc.Document.Output.Whole.{whole}
use lorelei.Tlc.Document.Output.{written, legend_line, generate_output, missing_names}
use lorelei.Tlc.Document.Output.Legend.{centered, legend_line-centered}
use lorelei.Tlc.Document.Output.Missing.{member, collect-missing_names}
use lorelei.Tlc.Document.Output.Collected.{collect-whole}
use lorelei.Tlc.Document.Output.Complete.{Each, Fits, generate_output-whole}

-- a declaration and a type are their texts
abbrev texts : Clang
texts = record {
  FunctionDecl = Bytes;
  QualType = Bytes;
  Specialization = ℕ;
  decl_name = λ fd. fd;
  pointer_type = λ fd. codes "void (*)()";
  typedef_name = λ t. none;
  type_string = λ t. t;
  type_string_with_name = λ t name. elim t [ none ↦ name | some s ↦ s ++ name ];
  type_string_decompound = λ t. t;
  return_type = λ fd. codes "void";
  parameters = λ fd. [];
  is_variadic = λ fd. false;
  void_type = codes "void";
  is_void = λ t. equal t (codes "void");
  pointer_to = λ t. t ++ codes " *";
  view_return_type = λ t. codes "void";
  view_arg_types = λ t. [];
  view_is_variadic = λ t. false;
}

abbrev set_of : Bytes → Set
set_of name = (name, tt) ∷ []

-- `draw` and `stop` are requested of the host, `notify` of the guest.
abbrev functions_of : ProcDirection → Set
functions_of guest_to_host = (codes "draw", tt) ∷ (codes "stop", tt) ∷ []
functions_of host_to_guest = (codes "notify", tt) ∷ []

abbrev document : Document texts
document = record {
  mode = guest;
  pre_include_file_name = codes "dir/pre.h";
  main_file_name = codes "main.cpp";
  requested = record { functions = functions_of; callbacks = (codes "int (*)()", codes "Cb") ∷ [] };
  function_decls = λ d. [];
  callback_types = [];
  source = record { properties = []; head = []; tail = [] };
  functions = λ d. [];
  callbacks = λ d. [];
}

abbrev info : Bytes → Bytes → FunctionPointerTypeInfo texts
info t name = record { pointer_type = t; name = name }

-- `draw` has a definition of its entry; a type is requested by its signature, another by its alias.
abbrev found : Collected texts
found = record {
  initialize_alias_maker = some none;
  function_by_name = (codes "draw", codes "draw") ∷ (codes "other", codes "other") ∷ [];
  named_callback_by_signature =
      (codes "int (*)()", info (codes "int (*)()") (codes "Fn"))
      ∷ (codes "void (*)()", info (codes "void (*)()") (codes "Cb"))
      ∷ (codes "zero (*)()", info (codes "zero (*)()") (codes "No"))
      ∷ [];
  function_desc_by_name = [];
  callback_desc_by_signature = [];
  proc_fn_decl_by_name =
      λ d phase. elim phase [ entry ↦ (codes "draw", 7) ∷ [] | adapt ↦ [] | caller ↦ [] ];
  proc_cb_decl_by_signature = λ d phase. [];
}

fresh : IsFresh texts document
fresh = (λ d. refl, refl, λ d. refl, λ d. refl)

function_by_name-IsSorted : IsSorted found.function_by_name
unfolding less
function_by_name-IsSorted = ((refl, tt), (tt, tt))

named_callback_by_signature-IsSorted : IsSorted found.named_callback_by_signature
unfolding less
named_callback_by_signature-IsSorted = ((refl, (refl, tt)), ((refl, tt), (tt, tt)))

collect-functions_example :
    Serves texts found guest_to_host
      (codes "draw")
      (is_some (find (codes "draw") (functions_of guest_to_host)))
      (find (codes "draw") found.function_by_name)
      (find (codes "draw") ((collect texts found document).functions guest_to_host))
collect-functions_example =
    collect-functions texts found document fresh function_by_name-IsSorted guest_to_host
      (codes "draw")

requested_callbacks-IsSorted : IsSorted document.requested.callbacks
requested_callbacks-IsSorted = (tt, tt)

collect-callbacks_example :
    ((signature : Bytes)
      → KeptType texts document.requested.callbacks signature
          (find signature found.named_callback_by_signature)
          (find signature (collect texts found document).callback_types))
    × ((d : ProcDirection) (key : Bytes)
        → FirstProc texts found d key
            (collect texts found document).callback_types
            (find key ((collect texts found document).callbacks d)))
collect-callbacks_example =
    collect-callbacks texts found document fresh named_callback_by_signature-IsSorted
      requested_callbacks-IsSorted

collected_callback :
    find (codes "Cb") ((collect texts found document).callbacks host_to_guest)
    ≡ some (
        callback_snippet texts host_to_guest (codes "void (*)()") (codes "Cb") none (λ phase. none))
unfolding collect find equal is_some update less
collected_callback = refl

collect-missing_names_example :
    member (codes "stop") (
      missing_names
        (functions_of guest_to_host)
        ((collect texts found document).function_decls guest_to_host))
    ≡ (is_some (find (codes "stop") (functions_of guest_to_host))
        && not (
            is_some (find (codes "stop") ((collect texts found document).functions guest_to_host))))
collect-missing_names_example =
    collect-missing_names texts found document fresh function_by_name-IsSorted guest_to_host
      (codes "stop")

missing_run :
    missing_names
      (functions_of guest_to_host)
      ((collect texts found document).function_decls guest_to_host)
    ≡ codes "stop" ∷ []
unfolding missing_names collect find is_some equal update
missing_run = refl

legend_line-centered_example : legend_line (codes "draw") ≡ some (centered (codes "draw"))
legend_line-centered_example = legend_line-centered (codes "draw") (omega arith)

-- every function has an alias
abbrev aliases : Bytes → Bytes → Bytes → Option Bytes → Bytes ⊎ Bytes
aliases direction phase fd overlay = inl (codes "_Z" ++ fd)

abbrev collected : Document texts
collected = collect texts found document

names_fit :
    (d : ProcDirection)
    → Each texts aliases (Fits texts aliases) (collected.functions d)
      × Each texts aliases (Fits texts aliases) (collected.callbacks d)
unfolding collect is_some find equal update less function_snippet callback_snippet
names_fit guest_to_host = ((omega arith, tt), (omega arith, (omega arith, tt)))
names_fit host_to_guest = (tt, (omega arith, (omega arith, tt)))

generate_output-whole_example :
    generate_output texts aliases false collected ≡ written (whole texts aliases collected)
unfolding collect is_some find equal update less function_snippet callback_snippet
generate_output-whole_example =
    generate_output-whole texts aliases collected ((codes "draw", codes "_Zdraw", refl, refl), tt)
      ((codes "void (*)()", refl), ((codes "int (*)()", refl), tt)) names_fit

collect-whole_example :
    generate_output texts aliases false (collect texts found document)
    ≡ written (whole texts aliases (collect texts found document))
collect-whole_example =
    collect-whole texts aliases found document fresh
      (λ direction fd overlay. (codes "_Z" ++ fd, refl)) names_fit
