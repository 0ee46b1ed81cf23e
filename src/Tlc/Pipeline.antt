-- ===== src/Tlc/Pipeline.antt =====
-- The passes of a document: `beginSourceFileAction`, the hooks, and `endProcessDocument` of
-- src/libs/TLCApi/DocumentContext.cpp. A pass is what its hooks do to the state of the document,
-- its procs and its diagnostics; the passes are a parameter.
mod Tests
pub mod Selection
pub mod Brackets
use lorelei.Base.{
  ℕ, Bool, true, false, List, [], ◌∷◌, ◌++◌, map, Option, none, some, Bytes, codes, ltb, ◌==◌,
  if◌then◌else◌,
}

pub data Phase : Type 0 where
  builder guard misc : Phase

pub record PassLibrary : Type 1 where
  pub State : Type 0
  -- `getDiagnostics().hasErrorOccurred()` and `reportError`
  pub has_error : State → Bool
  pub report_error : Bytes → State → State
  pub Proc : Type 0
  pub Message : Type 0
  pub Pass : Type 0
  pub phase : Pass → Phase
  -- ids are enumerators, none is negative
  pub id : Pass → ℕ
  pub begin_process_document : Pass → State → State
  pub handle_translation_unit : Pass → State → State
  pub end_process_document : Pass → State → State
  pub test_proc : Pass → Proc → State → Bool × Option Message × State
  -- a hook may change the message
  pub begin_handle_proc : Pass → Proc → Option Message → State → Option Message × State
  pub end_handle_proc : Pass → Proc → Option Message → State → State

-- `ID_DefaultBuilder`
abbrev pub id_default_builder : ℕ
id_default_builder = 0

module _ (lib : PassLibrary) where
  open lib use {
    State, has_error, report_error, Proc, Message, Pass, phase, id, begin_process_document,
    handle_translation_unit, end_process_document, test_proc, begin_handle_proc, end_handle_proc,
  }

  -- `std::map<int, Pass *>`, in the order of the ids
  unfoldable pub put_pass : Pass → List Pass → List Pass
  put_pass p [] = p ∷ []
  put_pass p (q ∷ qs) =
      let rest = put_pass p qs in
      if ltb (id p) (id q) then p ∷ q ∷ qs else if ltb (id q) (id p) then q ∷ rest else p ∷ qs

  -- `m_passMaps`
  pub record PassMaps : Type 0 where
    pub builders : List Pass
    pub guards : List Pass
    pub miscs : List Pass

  unfoldable pub register_pass : Pass → PassMaps → PassMaps
  unfolding put_pass
  register_pass p maps = elim (phase p) [
    | builder ↦ record maps { builders = put_pass p maps.builders }
    | guard ↦ record maps { guards = put_pass p maps.guards }
    | misc ↦ record maps { miscs = put_pass p maps.miscs }
  ]

  -- The entries of the registry, each instantiated or not.
  unfoldable pub register_all : List (Option Pass) → PassMaps → PassMaps
  unfolding register_pass
  register_all [] maps = maps
  register_all (none ∷ entries) maps = register_all entries maps
  register_all (some p ∷ entries) maps = register_all entries (register_pass p maps)

  abbrev pub begin_source_file_action : List (Option Pass) → PassMaps
  begin_source_file_action entries =
      register_all entries (record { builders = []; guards = []; miscs = [] })

  -- A hook of each pass, until one reports an error.
  unfoldable pub run_hooks : (Pass → State → State) → List Pass → State → State
  run_hooks hook [] d = d
  run_hooks hook (p ∷ ps) d =
      let rest = run_hooks hook ps (hook p d) in if has_error (hook p d) then hook p d else rest

  -- the passes, phase by phase
  abbrev pub all_passes : PassMaps → List Pass
  all_passes maps = maps.builders ++ (maps.guards ++ maps.miscs)

  abbrev pub begin_hooks : PassMaps → State → State
  begin_hooks maps = run_hooks begin_process_document (all_passes maps)

  abbrev pub translation_unit_hooks : PassMaps → State → State
  translation_unit_hooks maps = run_hooks handle_translation_unit (all_passes maps)

  abbrev pub end_hooks : PassMaps → State → State
  end_hooks maps = run_hooks end_process_document (all_passes maps)

  -- A part of the processing goes on with a value, or halts since an error was reported.
  pub data Outcome (A : Type 0) : Type 0 where
    running : A → State → Outcome A
    halted : State → Outcome A

  abbrev pub and_then : {A B : Type 0} → Outcome A → (A → State → Outcome B) → Outcome B
  and_then (running a d) f = f a d
  and_then (halted d) f = halted d

  -- `RunPassTask`
  pub record Task : Type 0 where
    pub proc : Proc
    pub pass : Pass
    pub message : Option Message

  abbrev pub task : Proc → Pass → Option Message → Task
  task proc pass message = record { proc = proc; pass = pass; message = message }

  -- The passes that match the proc.
  unfoldable pub match_passes : List Pass → Proc → State → Outcome (List Task)
  match_passes [] proc d = running [] d
  match_passes (p ∷ ps) proc d =
      let (matched, message, d') = test_proc p proc d in
      let rest = match_passes ps proc d' in
      if has_error d'
      then halted d'
      else and_then rest (λ tasks. running (if matched then task proc p message ∷ tasks else tasks))

  unfoldable pub append_multi_match_pass_tasks : List Pass → List Proc → State → Outcome (List Task)
  unfolding match_passes
  append_multi_match_pass_tasks passes [] d = running [] d
  append_multi_match_pass_tasks passes (proc ∷ procs) d =
      and_then (match_passes passes proc d) (λ tasks d'.
        and_then (append_multi_match_pass_tasks passes procs d') (λ more. running (tasks ++ more)))

  -- The first builder that matches the proc, the default one apart.
  unfoldable pub find_builder : List Pass → Proc → State → Outcome (Option Task)
  find_builder [] proc d = running none d
  find_builder (p ∷ ps) proc d =
      let (matched, message, d') = test_proc p proc d in
      let skipped = find_builder ps proc d in
      let rest = find_builder ps proc d' in
      if id p == id_default_builder
      then skipped
      else if has_error d'
      then halted d'
      else if matched
      then running (some (task proc p message)) d'
      else rest

  abbrev pub task_or : Option Task → Task → Task
  task_or none t = t
  task_or (some t) d = t

  unfoldable pub each_builder : List Pass → Pass → List Proc → State → Outcome (List Task)
  unfolding find_builder
  each_builder passes default [] d = running [] d
  each_builder passes default (proc ∷ procs) d = and_then (find_builder passes proc d) (λ found d'.
      and_then (each_builder passes default procs d')
        (λ more. running (task_or found (task proc default none) ∷ more)))

  unfoldable pub find_pass : ℕ → List Pass → Option Pass
  find_pass n [] = none
  find_pass n (p ∷ ps) = if id p == n then some p else find_pass n ps

  unfoldable pub append_builder_pass_tasks : List Pass → List Proc → State → Outcome (List Task)
  unfolding each_builder find_pass
  append_builder_pass_tasks passes procs d = elim (find_pass id_default_builder passes) [
    | none ↦ halted (report_error (codes "no default builder pass found") d)
    | some default ↦ each_builder passes default procs d
  ]

  -- `if (hasErrorOccurred()) return;`
  abbrev pub unless_error : {A : Type 0} → Outcome A → Outcome A
  unless_error (running a d) = if has_error d then halted d else running a d
  unless_error (halted d) = halted d

  -- The tasks of the procs: a builder for each, then the guards and the other passes that match.
  unfoldable pub select_tasks : PassMaps → List Proc → State → Outcome (List Task)
  unfolding append_builder_pass_tasks append_multi_match_pass_tasks
  select_tasks maps procs d =
      and_then (unless_error (append_builder_pass_tasks maps.builders procs d)) (λ builds d1.
        and_then (unless_error (append_multi_match_pass_tasks maps.guards procs d1)) (λ guarded d2.
          and_then (unless_error (append_multi_match_pass_tasks maps.miscs procs d2))
            (λ others. running (builds ++ (guarded ++ others)))))

  -- The begin hooks in order; the tasks with their messages, the last one first.
  unfoldable pub run_begin : List Task → List Task → State → Outcome (List Task)
  run_begin [] done d = running done d
  run_begin (t ∷ ts) done d =
      let (message, d') = begin_handle_proc t.pass t.proc t.message d in
      let rest = run_begin ts (record t { message = message } ∷ done) d' in
      if has_error d' then halted d' else rest

  -- The end hooks of tasks, in the order of the list.
  unfoldable pub run_end : List Task → State → Outcome (Unit {0})
  run_end [] d = running tt d
  run_end (t ∷ ts) d =
      let d' = end_handle_proc t.pass t.proc t.message d in
      let rest = run_end ts d' in if has_error d' then halted d' else rest

  abbrev pub final_state : {A : Type 0} → Outcome A → State
  final_state (running a d) = d
  final_state (halted d) = d

  unfoldable pub process : PassMaps → List Proc → State → State
  unfolding select_tasks run_begin run_end run_hooks
  process maps procs d = final_state (
      and_then (select_tasks maps procs d) (λ tasks d1.
        and_then (run_begin tasks [] d1)
          (λ begun d2. and_then (run_end begun d2) (λ u d3. running u (end_hooks maps d3)))))
