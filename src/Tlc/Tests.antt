-- ===== src/Tlc/Tests.antt =====
-- Runs and instances for Tlc/Summary and Tlc/Callbacks.
use lorelei.Base.{
  ◌≤◌, ◌≡◌, inl, inr, refl, false, List, [], ◌∷◌, none, Bytes, codes, length, arith, Gives,
}
use lorelei.Ordered.Order.{less}
use lorelei.LlvmJson.{value}
use lorelei.LlvmJson.Trees.{tree_json, tree_json-Documented, Tree}
use lorelei.Tlc.Summary.{
  ManifestSummary, clear, load_from_json, save_as_json, root_members, guest_to_host,
}
use lorelei.Tlc.Summary.RoundTrip.{IsValid, load_from_json-save_as_json}
use lorelei.Tlc.Callbacks.{TypeSystem, Shape, function_pointer, pointer, record_type, items}
use lorelei.Tlc.Callbacks.Reach.{name_of, children}
use lorelei.Tlc.Callbacks.Ends.{Among}
use lorelei.Tlc.Callbacks.Config.{Matches, collect_names}
use lorelei.Tlc.Callbacks.Config.Same.{Finite}
use lorelei.Tlc.Callbacks.Config.Sections.{SortedOut, collect_names-SortedOut}

abbrev summary : ManifestSummary
summary = record {
  file_name = codes "manifest.cpp";
  functions = record {
    to_host = (codes "SDL_Init", record { location = codes "SDL.h:1:1" }) ∷ [];
    to_guest = [];
  };
  missing_functions = record { to_host = (codes "SDL_Quit", tt) ∷ []; to_guest = [] };
  callbacks =
      (
        codes "int (*)(void *)",
        record {
          signature = codes "int (*)(void *)";
          alias = codes "SDL_HitTest";
          origin = codes "Config[Function]:SDL_Init@arg1";
        },
      )
      ∷ [];
}

summary-IsValid : IsValid tree_json summary
unfolding less
summary-IsValid = record {
  file_text = refl;
  to_host = record { sorted = (tt, tt); names = (refl, tt); locations = (refl, tt) };
  to_guest = record { sorted = tt; names = tt; locations = tt };
  missing_to_host = record { sorted = (tt, tt); names = (refl, tt) };
  missing_to_guest = record { sorted = tt; names = tt };
  callbacks_sorted = (tt, tt);
  callbacks =
      (record { key = refl; signature_text = refl; alias_text = refl; origin_text = refl }, tt);
}

abbrev saved_text : Tree
saved_text = tree_json.object (root_members tree_json summary)

saved : save_as_json tree_json none false summary ≡ value saved_text
unfolding save_as_json
saved = refl

load_from_json-save_as_json_example :
    load_from_json tree_json (value saved_text) clear ≡ (value tt, summary)
load_from_json-save_as_json_example =
    load_from_json-save_as_json tree_json tree_json-Documented summary clear summary-IsValid saved

-- a widget that holds a handler of widgets
data Sample : Type 0 where
  widget widget_pointer handler : Sample

abbrev sample_name : Sample → Bytes
sample_name widget = codes "Widget"
sample_name widget_pointer = codes "Widget *"
sample_name handler = codes "Widget *(*)(Widget *)"

abbrev sample_shape : Sample → Shape Sample
sample_shape widget = record_type ((codes "on_event", handler) ∷ [])
sample_shape widget_pointer = pointer widget
sample_shape handler = function_pointer widget_pointer (widget_pointer ∷ [])

abbrev samples : TypeSystem
samples = record {
  QualType = Sample;
  get_canonical_type = λ t. t;
  is_void_type = λ t. false;
  get_type_string = sample_name;
  shape = sample_shape;
}

abbrev sample_names : List Bytes
sample_names = codes "Widget" ∷ codes "Widget *" ∷ codes "Widget *(*)(Widget *)" ∷ []

samples-named : (t : Sample) → Among (name_of samples t) sample_names
samples-named widget = inl refl
samples-named widget_pointer = inr (inl refl)
samples-named handler = inr (inr (inl refl))

samples-wide : (t : Sample) → length (children samples t) ≤ 2
unfolding items
samples-wide widget = omega arith
samples-wide widget_pointer = omega arith
samples-wide handler = omega arith

abbrev unit : Matches samples
unit = record {
  functions =
      (codes "set_handler", record { pointer_type = handler; location = codes "w.h:3:1" }) ∷ [];
  overlays = [];
  typedefs = [];
  aliases = [];
}

samples-Finite : Finite samples sample_names 2
samples-Finite = record { named = samples-named; wide = samples-wide }

collect_names-SortedOut_example :
    Gives
      (collect_names samples unit 20
        (codes "Function")
        guest_to_host
        (codes "set_handler" ∷ codes "no_such" ∷ [])
        clear)
      (SortedOut samples unit guest_to_host
        (λ k. Among k (codes "set_handler" ∷ codes "no_such" ∷ []))
        clear)
collect_names-SortedOut_example =
    collect_names-SortedOut samples unit 20 sample_names 2 samples-Finite (omega arith)
      (codes "Function") guest_to_host (codes "set_handler" ∷ codes "no_such" ∷ []) clear tt tt
