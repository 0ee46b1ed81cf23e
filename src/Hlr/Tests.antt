-- ===== src/Hlr/Tests.antt =====
-- Runs and instances for Hlr.
use lorelei.Base.{◌≡◌, refl, false, [], ◌∷◌, none, codes}
use lorelei.Ordered.Order.{less}
use lorelei.LlvmJson.{value}
use lorelei.LlvmJson.Trees.{tree_json, tree_json-Documented, Tree}
use lorelei.Hlr.Statistics.{SourceStatistics, clear, load_from_json, save_as_json, root_members}
use lorelei.Hlr.Statistics.RoundTrip.{IsValid, load_from_json-saved}

abbrev two_guards : SourceStatistics
two_guards = record {
  files_need_patch = (codes "a.c", tt) ∷ (codes "b.c", tt) ∷ [];
  callback_check_guard_signatures = (codes "void (*)(int)", tt) ∷ [];
  function_decay_guard_stats =
      (codes "int (*)(int)", record { locations = (codes "f.h<1:1>", codes "a.c") ∷ [] })
      ∷ (
        codes "void (*)(int)",
        record {
          locations = (codes "f.h<2:1>", codes "a.c") ∷ (codes "f.h<3:1>", codes "b.c") ∷ [];
        },
      )
      ∷ [];
}

two_guards-IsValid : IsValid tree_json two_guards
unfolding less
two_guards-IsValid = record {
  files_sorted = ((refl, tt), (tt, tt));
  files_texts = (refl, (refl, tt));
  signatures_sorted = (tt, tt);
  signatures_texts = (refl, tt);
  guards_sorted = ((refl, tt), (tt, tt));
  guards_texts = (refl, (refl, tt));
  guards = (
    record { sorted = (tt, tt); any = refl; key_texts = (refl, tt); value_texts = (refl, tt) },
    (
      record {
        sorted = ((refl, tt), (tt, tt));
        any = refl;
        key_texts = (refl, (refl, tt));
        value_texts = (refl, (refl, tt));
      },
      tt,
    ),
  );
}

abbrev saved_text : Tree
saved_text = tree_json.object (root_members tree_json two_guards)

saved : save_as_json tree_json none false two_guards ≡ value saved_text
unfolding save_as_json
saved = refl

load_from_json-saved_example :
    load_from_json tree_json (value saved_text) clear ≡ (value tt, two_guards)
load_from_json-saved_example =
    load_from_json-saved tree_json tree_json-Documented two_guards clear two_guards-IsValid saved
