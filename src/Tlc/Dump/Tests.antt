-- ===== src/Tlc/Dump/Tests.antt =====
-- Runs and instances for Tlc/Dump.
use lorelei.Base.{◌≡◌, ◌↔◌, ◌⊎◌, refl, true, false, ◌&&◌, [], ◌∷◌, ◌++◌, Bytes, codes, equal}
use lorelei.Ordered.{Map, keys}
use lorelei.Ordered.Laws.{IsSorted}
use lorelei.Tlc.Callbacks.Reach.{Has}
use lorelei.Tlc.Callbacks.Ends.{Among}
use lorelei.Tlc.Dump.{RequestedFunction, ResolvedFunction, CapturedType, CapturedFunction}
use lorelei.Tlc.Dump.Fallback.{decide_fallback_type, build_fallback_decl_decision}
use lorelei.Tlc.Dump.Fallback.Decl.{
  all_allowed, arguments, in_parentheses, build_fallback_decl_decision-text,
}
use lorelei.Tlc.Dump.Output.{no_listing, list_functions}
use lorelei.Tlc.Dump.Output.Headers.{SeenIn, list_functions-Headers}

abbrev foo_pointer : CapturedType
foo_pointer = record {
  original_text = codes "const struct Foo *";
  pointer_like = true;
  header_paths = [];
  non_header_paths = [];
  dependency_names = [];
}

abbrev plain_int : CapturedType
plain_int = record {
  original_text = codes "int";
  pointer_like = false;
  header_paths = [];
  non_header_paths = [];
  dependency_names = [];
}

abbrev open_foo : CapturedFunction
open_foo = record {
  source_path = codes "/a.c";
  source_location = codes "/a.c:1:1";
  return_type = plain_int;
  params =
      record { name = codes "foo"; type = foo_pointer }
      ∷ record { name = codes "n"; type = plain_int }
      ∷ [];
  variadic = false;
}

written :
    (build_fallback_decl_decision (codes "open_foo") open_foo []).decl_text
    ≡ codes "int open_foo(void *foo, int n);"
unfolding build_fallback_decl_decision equal
written = refl

build_fallback_decl_decision-text_example :
    ((build_fallback_decl_decision (codes "open_foo") open_foo []).allowed
      ≡ ((decide_fallback_type plain_int [] true).allowed && all_allowed [] open_foo.params))
    × ((build_fallback_decl_decision (codes "open_foo") open_foo []).allowed ≡ true
        → (build_fallback_decl_decision (codes "open_foo") open_foo []).decl_text
          ≡ (decide_fallback_type plain_int [] true).emitted_type_text
            ++ (b' '
                ∷ (codes "open_foo"
                    ++ (b'('
                        ∷ (in_parentheses (arguments [] open_foo open_foo.params) ++ codes ");")))))
build_fallback_decl_decision-text_example =
    build_fallback_decl_decision-text [] (codes "open_foo") open_foo

abbrev resolved : Map ResolvedFunction
resolved =
    (codes "open_foo", record { header_paths = []; non_header_paths = (codes "/a.c", tt) ∷ [] })
    ∷ (codes "puts", record { header_paths = (codes "/stdio.h", tt) ∷ []; non_header_paths = [] })
    ∷ []

abbrev requested : Map RequestedFunction
requested =
    (codes "open_foo", record { sections = (codes "Function", tt) ∷ [] })
    ∷ (codes "puts", record { sections = (codes "Function", tt) ∷ [] })
    ∷ []

list_functions-Headers_example :
    IsSorted (list_functions resolved requested no_listing).header_to_functions
    × ((h : Bytes)
        → Has h (list_functions resolved requested no_listing).header_to_functions ↔ (
            Has h no_listing.header_to_functions
            ⊎ ((name : Bytes) × Among name (keys requested) × SeenIn resolved h name)))
list_functions-Headers_example = list_functions-Headers resolved requested no_listing tt
