-- ===== src/Tlc/Pipeline/Tests.antt =====
-- Runs and instances for Tlc/Pipeline.
use lorelei.Base.{
  ℕ, ◌+◌, ◌*◌, ◌≡◌, refl, Bool, true, false, ◌&&◌, ◌||◌, List, [], ◌∷◌, ◌++◌, Option, none, some,
  ◌==◌, if◌then◌else◌,
}
use lorelei.Tlc.Pipeline.{
  PassLibrary, PassMaps, builder, guard, Task, task, begin_source_file_action, register_all,
  find_pass, process, run_begin, end_hooks,
}
use lorelei.Tlc.Pipeline.Selection.{Predicate, expected_tasks}
use lorelei.Tlc.Pipeline.Brackets.{nest, begun_state, process-nest, process-halts}

-- a document is the hooks that ran on it, and whether one failed
record Document : Type 0 where
  log : List ℕ
  failed : Bool

-- Pass 0 is the default builder, pass 1 a builder for proc 7, pass 2 a guard; the guard fails on
-- proc 9.
abbrev fails_on : ℕ → ℕ → Bool
fails_on p proc = p == 2 && proc == 9

abbrev library : PassLibrary
library = record {
  State = Document;
  has_error = λ d. d.failed;
  report_error = λ m d. record d { failed = true };
  Proc = ℕ;
  Message = Unit {0};
  Pass = ℕ;
  phase = λ p. if p == 2 then guard else builder;
  id = λ p. p;
  begin_process_document = λ p d. d;
  handle_translation_unit = λ p d. d;
  end_process_document = λ p d. record d { log = d.log ++ (900 + p) ∷ [] };
  test_proc = λ p proc d. ((p == 1 && proc == 7) || p == 2, none, d);
  begin_handle_proc = λ p proc m d.
      (m, record { log = d.log ++ (100 * p + proc) ∷ []; failed = d.failed || fails_on p proc });
  end_handle_proc = λ p proc m d. record d { log = d.log ++ (500 + 100 * p + proc) ∷ [] };
}

abbrev maps : PassMaps library
maps = record { builders = 0 ∷ 1 ∷ []; guards = 2 ∷ []; miscs = [] }

registered : begin_source_file_action library (some 1 ∷ none ∷ some 2 ∷ some 0 ∷ []) ≡ maps
unfolding register_all
registered = refl

abbrev start : Document
start = record { log = []; failed = false }

abbrev tests_match : ℕ → ℕ → Bool
tests_match p proc = (p == 1 && proc == 7) || p == 2

abbrev no_message : ℕ → ℕ → Option (Unit {0})
no_message p proc = none

pure : Predicate library tests_match no_message
pure = record { test_lem = λ p proc d. refl }

nested_log :
    (process library maps (7 ∷ 8 ∷ []) start).log
    ≡ 107 ∷ 8 ∷ 207 ∷ 208 ∷ 708 ∷ 707 ∷ 508 ∷ 607 ∷ 900 ∷ 901 ∷ 902 ∷ []
unfolding process
nested_log = refl

process-nest_example :
    process library maps (7 ∷ 8 ∷ []) start
    ≡ end_hooks library maps
        (nest library (expected_tasks library tests_match no_message maps 0 (7 ∷ 8 ∷ [])) start)
unfolding process find_pass
process-nest_example =
    process-nest library tests_match no_message pure maps 0 refl (7 ∷ 8 ∷ []) start refl refl

abbrev begun_tasks : List (Task library)
begun_tasks = task library 9 0 none ∷ []

process-halts_example :
    process library maps (9 ∷ []) start
    ≡ begun_state library (task library 9 2 none) (record { log = 9 ∷ []; failed = false })
unfolding find_pass run_begin
process-halts_example =
    process-halts library tests_match no_message pure maps 0 refl (9 ∷ []) start refl
      (task library 9 0 none ∷ []) [] begun_tasks (task library 9 2 none)
      (record { log = 9 ∷ []; failed = false }) refl refl refl
