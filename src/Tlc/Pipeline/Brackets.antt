-- ===== src/Tlc/Pipeline/Brackets.antt =====
-- The hooks of the selected tasks are nested: the end hook of a task runs after those of the tasks
-- behind it (`endProcessDocument` of src/libs/TLCApi/DocumentContext.cpp).
use lorelei.Base.{
  ◌≡◌, refl, ◌⊎◌, subst, Bool, true, false, List, [], ◌∷◌, ◌++◌, Option, some, Bool-cases, inl, inr,
}
use lorelei.Tlc.Pipeline.{
  PassLibrary, Outcome, running, halted, and_then, final_state, Task, PassMaps, id_default_builder,
  find_pass, run_begin, run_end, end_hooks, process,
}
use lorelei.Tlc.Pipeline.Selection.{Predicate, expected_tasks, select_tasks-expected_tasks}

module _ (lib : PassLibrary) where
  open lib use {State, has_error, Proc, Message, Pass, begin_handle_proc, end_handle_proc}

  -- the state behind the begin hook of a task
  abbrev pub begun_state : Task lib → State → State
  begun_state t d = (begin_handle_proc t.pass t.proc t.message d).1

  -- the message behind the begin hook of a task
  abbrev pub begun_message : Task lib → State → Option Message
  begun_message t d = (begin_handle_proc t.pass t.proc t.message d).0

  -- The begin hook of the first task, all of the other tasks, and its end hook.
  abbrev pub nest : List (Task lib) → State → State
  nest [] d = d
  nest (t ∷ ts) d = end_handle_proc t.pass t.proc (begun_message t d) (nest ts (begun_state t d))

  abbrev HasError : {A : Type 0} → Outcome lib A → Type 0
  HasError (running a d) = Unit
  HasError (halted d) = has_error d ≡ true

  run_begin-HasError : (ts done : List (Task lib)) (d : State) → HasError (run_begin lib ts done d)
  unfolding run_begin
  run_begin-HasError [] done d = tt
  run_begin-HasError (t ∷ ts) done d = elim (Bool-cases (has_error (begun_state t d))) [
    | inl e ↦ rw (run_begin, e) e
    | inr e ↦ rw (run_begin, e) (run_begin-HasError ts _ (begun_state t d))
  ]

  run_begin-append :
      (ts us done : List (Task lib)) (d : State)
      → run_begin lib (ts ++ us) done d ≡ and_then lib (run_begin lib ts done d) (run_begin lib us)
  unfolding run_begin
  run_begin-append [] us done d = refl
  run_begin-append (t ∷ ts) us done d = elim (Bool-cases (has_error (begun_state t d))) [
    | inl e ↦ rw (run_begin, e) refl
    | inr e ↦ rw (run_begin, e) (run_begin-append ts us _ (begun_state t d))
  ]

  run_end-HasError : (ts : List (Task lib)) (d : State) → HasError (run_end lib ts d)
  unfolding run_end
  run_end-HasError [] d = tt
  run_end-HasError (t ∷ ts) d =
      elim (Bool-cases (has_error (end_handle_proc t.pass t.proc t.message d))) [
        | inl e ↦ rw (run_end, e) e
        | inr e ↦ rw (run_end, e) (run_end-HasError ts _)
      ]

  run_end-tail :
      (t : Task lib) (ts : List (Task lib)) (d d' : State)
      → run_end lib (t ∷ ts) d ≡ running tt d'
      → run_end lib ts (end_handle_proc t.pass t.proc t.message d) ≡ running tt d'
  unfolding run_end
  run_end-tail t ts d d' h =
      elim (Bool-cases (has_error (end_handle_proc t.pass t.proc t.message d))) [
        | inl e ↦ absurd (cc (rw (run_end, e) at h))
        | inr e ↦ rw (run_end, e) at h
      ]

  run_end-nest :
      (ts done begun : List (Task lib)) (d d2 d3 : State)
      → run_begin lib ts done d ≡ running begun d2
      → run_end lib begun d2 ≡ running tt d3
      → run_end lib done (nest ts d) ≡ running tt d3
  unfolding run_begin run_end
  run_end-nest [] done begun d d2 d3 h k = cc
  run_end-nest (t ∷ ts) done begun d d2 d3 h k = elim (Bool-cases (has_error (begun_state t d))) [
    | inl e ↦ absurd (cc (rw (run_begin, e) at h))
    | inr e ↦
        let t' : Task lib = record t { message = begun_message t d } in
        let inner =
          run_end-nest ts (t' ∷ done) begun (begun_state t d) d2 d3 (rw (run_begin, e) at h) k in
        run_end-tail t' done (nest ts (begun_state t d)) d3 inner
  ]

  Outcome-cases :
      {A : Type 0} (o : Outcome lib A)
      → ((a : A) × (d : State) × (o ≡ running a d)) ⊎ ((d : State) × (o ≡ halted d))
  Outcome-cases (running a d) = inl (a, d, refl)
  Outcome-cases (halted d) = inr (d, refl)

  halted-error :
      {A : Type 0} (o : Outcome lib A) (d : State) → HasError o → o ≡ halted d → has_error d ≡ true
  halted-error o d h e = subst HasError e h

  no_error : {A : Type 0} {b : Bool} → b ≡ true → b ≡ false → A
  no_error h k = cc

  module _ (matches : Pass → Proc → Bool) (message : Pass → Proc → Option Message)
      (pure : Predicate lib matches message) (maps : PassMaps lib) (default : Pass)
      (builtin : find_pass lib id_default_builder maps.builders ≡ some default) (procs : List Proc)
      (d : State) (fine : has_error d ≡ false) where
    abbrev tasks : List (Task lib)
    tasks = expected_tasks lib matches message maps default procs

    process-expected :
        process lib maps procs d
        ≡ final_state lib (
            and_then lib (run_begin lib tasks [] d) (λ begun d2.
              and_then lib (run_end lib begun d2) (λ u d3. running u (end_hooks lib maps d3))))
    unfolding process
    process-expected =
        rw
          (
            process,
            select_tasks-expected_tasks lib matches message pure d fine maps default procs builtin,
          )
          refl

    -- When testProc is a predicate only, there is a default builder, and no error is reported,
    -- endProcessDocument selects for each proc the first builder that matches, else the default
    -- one, and then all guards and other passes that match; it runs the hooks of the tasks
    -- nested in each other, each begin hook before and each end hook behind those of the tasks
    -- behind it, and the closing hooks of all passes at last.
    pub process-nest :
        has_error (process lib maps procs d) ≡ false
        → process lib maps procs d
          ≡ end_hooks lib maps (nest (expected_tasks lib matches message maps default procs) d)
    unfolding run_end
    process-nest h = elim (Outcome-cases (run_begin lib tasks [] d)) [
      | inr (d2, e) ↦
          no_error (halted-error _ d2 (run_begin-HasError tasks [] d) e)
            (rw (process-expected, e) at h)
      | inl (begun, d2, e) ↦ elim (Outcome-cases (run_end lib begun d2)) [
        | inr (d3, k) ↦
            no_error (halted-error _ d3 (run_end-HasError begun d2) k)
              (rw (process-expected, e, k) at h)
        | inl (u, d3, k) ↦
            let nested : nest tasks d ≡ d3 = cc (run_end-nest tasks [] begun d d2 d3 e k) in
            rw (process-expected, e, k, nested) refl
      ]
    ]

    -- When testProc is a predicate only and there is a default builder, and a begin hook reports
    -- an error behind tasks whose begin hooks report none, endProcessDocument leaves the
    -- document as that hook left it: no other hook runs.
    pub process-halts :
        (before after begun : List (Task lib)) (t : Task lib) (d1 : State)
        → expected_tasks lib matches message maps default procs ≡ before ++ t ∷ after
        → run_begin lib before [] d ≡ running begun d1
        → has_error (begun_state t d1) ≡ true
        → process lib maps procs d ≡ begun_state t d1
    unfolding run_begin
    process-halts before after begun t d1 split ran e =
        let stop : run_begin lib (t ∷ after) begun d1 ≡ halted (begun_state t d1) =
          rw (run_begin, e) refl in
        rw (process-expected, split, run_begin-append before (t ∷ after) [] d, ran, stop) refl
