-- ===== src/Tlc/Pipeline/Selection.antt =====
-- Which passes `endProcessDocument` of src/libs/TLCApi/DocumentContext.cpp selects, where testProc
-- is a predicate only, as include/lorelei/TLCApi/Pass.h asks for.
use lorelei.Base.{
  ◌≡◌, refl, Bool, false, List, [], ◌∷◌, ◌++◌, map, Option, none, some, ◌==◌, if◌then◌else◌,
  Bool-cases, inl, inr,
}
use lorelei.Tlc.Pipeline.{
  PassLibrary, running, Task, task, PassMaps, id_default_builder, match_passes, find_builder,
  task_or, each_builder, find_pass, append_builder_pass_tasks, append_multi_match_pass_tasks,
  select_tasks,
}

module _ (lib : PassLibrary) where
  open lib use {State, has_error, Proc, Message, Pass, id, test_proc}

  -- What testProc says does not hang on the document, which it leaves alone.
  pub record Predicate (matches : Pass → Proc → Bool) (message : Pass → Proc → Option Message)
      : Type 0 where
    pub test_lem :
        (p : Pass) (proc : Proc) (d : State)
        → test_proc p proc d ≡ (matches p proc, message p proc, d)

  module _ (matches : Pass → Proc → Bool) (message : Pass → Proc → Option Message) where
    -- a task for each pass that matches
    abbrev pub matching : List Pass → Proc → List (Task lib)
    matching [] proc = []
    matching (p ∷ ps) proc =
        if matches p proc
        then task lib proc p (message p proc) ∷ matching ps proc
        else matching ps proc

    abbrev pub all_matching : List Pass → List Proc → List (Task lib)
    all_matching passes [] = []
    all_matching passes (proc ∷ procs) = matching passes proc ++ all_matching passes procs

    -- the first pass that matches, the default one apart, and the default one if there is none
    abbrev pub builder_of : Pass → List Pass → Proc → Task lib
    builder_of default [] proc = task lib proc default none
    builder_of default (p ∷ ps) proc =
        if id p == id_default_builder
        then builder_of default ps proc
        else if matches p proc
        then task lib proc p (message p proc)
        else builder_of default ps proc

    abbrev pub expected_tasks : PassMaps lib → Pass → List Proc → List (Task lib)
    expected_tasks maps default procs =
        map (builder_of default maps.builders) procs
        ++ (all_matching maps.guards procs ++ all_matching maps.miscs procs)

    module _ (pure : Predicate matches message) (d : State) (fine : has_error d ≡ false) where
      match_passes-matching :
          (ps : List Pass) (proc : Proc) → match_passes lib ps proc d ≡ running (matching ps proc) d
      unfolding match_passes
      match_passes-matching [] proc = refl
      match_passes-matching (p ∷ ps) proc =
          rw (match_passes, pure.test_lem p proc d, fine, match_passes-matching ps proc) refl

      append-all_matching :
          (passes : List Pass) (procs : List Proc)
          → append_multi_match_pass_tasks lib passes procs d ≡ running (all_matching passes procs) d
      unfolding append_multi_match_pass_tasks
      append-all_matching passes [] = refl
      append-all_matching passes (proc ∷ procs) =
          rw
            (
              append_multi_match_pass_tasks,
              match_passes-matching passes proc,
              append-all_matching passes procs,
            )
            refl

      find_builder-builder_of :
          (default : Pass) (ps : List Pass) (proc : Proc)
          → (found : Option (Task lib)) × (find_builder lib ps proc d ≡ running found d)
            × (task_or lib found (task lib proc default none) ≡ builder_of default ps proc)
      unfolding find_builder
      find_builder-builder_of default [] proc = (none, refl, refl)
      find_builder-builder_of default (p ∷ ps) proc =
          let (later, found, same) = find_builder-builder_of default ps proc in
          elim (Bool-cases (id p == id_default_builder)) [
            | inl e ↦ (later, rw (find_builder, e) found, rw e same)
            | inr e ↦ elim (Bool-cases (matches p proc)) [
              | inl m ↦ (
                some (task lib proc p (message p proc)),
                rw (find_builder, e, pure.test_lem p proc d, fine, m) refl,
                rw (e, m) refl,
              )
              | inr m ↦ (
                later,
                rw (find_builder, e, pure.test_lem p proc d, fine, m) found,
                rw (e, m) same,
              )
            ]
          ]

      each_builder-builder_of :
          (default : Pass) (ps : List Pass) (procs : List Proc)
          → each_builder lib ps default procs d ≡ running (map (builder_of default ps) procs) d
      unfolding each_builder
      each_builder-builder_of default ps [] = refl
      each_builder-builder_of default ps (proc ∷ procs) =
          let (found, h, same) = find_builder-builder_of default ps proc in
          rw (each_builder, h, each_builder-builder_of default ps procs, same) refl

      pub select_tasks-expected_tasks :
          (maps : PassMaps lib) (default : Pass) (procs : List Proc)
          → find_pass lib id_default_builder maps.builders ≡ some default
          → select_tasks lib maps procs d ≡ running (expected_tasks maps default procs) d
      unfolding select_tasks append_builder_pass_tasks
      select_tasks-expected_tasks maps default procs h =
          rw
            (
              select_tasks,
              append_builder_pass_tasks,
              h,
              each_builder-builder_of default maps.builders procs,
              fine,
              append-all_matching maps.guards procs,
              fine,
              append-all_matching maps.miscs procs,
              fine,
            )
            refl
