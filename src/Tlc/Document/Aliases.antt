-- ===== src/Tlc/Document/Aliases.antt =====
-- The callbacks that a document collects: those requested by signature or by alias, under their
-- aliases.
use lorelei.Base.{
  Bool, true, false, is_nil, is_some, ap, ◌++◌, ◌↔◌, All, equal_refl, Option-cases, ◌≡◌, refl, ◌∙◌,
  sym, subst, inl, inr, [], ◌∷◌, Option, none, some, Bytes, equal, equal_iff, if◌then◌else◌,
  Bool-cases, arith,
}
use lorelei.Ordered.{Map, find, assign, keep_old}
use lorelei.Ordered.Laws.{IsSorted, update-IsSorted, find-update, find-Before}
use lorelei.Tlc.Snippet.Made.{IsMade, typedef_or_none, callback_snippet-IsMade}
use lorelei.Tlc.Snippet.{callback, ProcDirection, Clang, ProcSnippet}
use lorelei.Tlc.Document.{
  Document, Collected, FunctionPointerTypeInfo, has_alias, is_requested, keep_callbacks,
  add_callbacks, collect, callback_key, callback_proc,
}
use lorelei.Tlc.Document.Procs.{IsFresh}

clash : {b : Bool} → b ≡ true → b ≡ false → ⊥
clash h k = cc

-- A callback is asked for by its signature, or by an alias that some callback is requested under.
pub data Asked (requested : Map Bytes) (signature alias : Bytes) : Type 0 where
  by_signature :
      (name : Bytes) → find signature requested ≡ some name → Asked requested signature alias
  by_alias :
      (other : Bytes)
      → is_nil alias ≡ false
      → find other requested ≡ some alias
      → Asked requested signature alias

has_alias-find :
    (alias : Bytes) (requested : Map Bytes)
    → IsSorted requested
    → has_alias alias requested ≡ true
    → (other : Bytes) × (find other requested ≡ some alias)
unfolding has_alias find
has_alias-find alias [] s h = absurd (clash h refl)
has_alias-find alias ((signature, name) ∷ requested) s h = elim (Bool-cases (equal name alias)) [
  | inl same ↦ (signature, rw (equal_refl signature) (ap some ((equal_iff name alias).0 same)))
  | inr differs ↦
      let (other, e) = has_alias-find alias requested s.1 (rw differs at h) in
      (other, ground (arith, equal_iff other signature, find-Before signature requested s.0))
]

find-has_alias :
    (alias other : Bytes) (requested : Map Bytes)
    → find other requested ≡ some alias
    → has_alias alias requested ≡ true
unfolding has_alias find
find-has_alias alias other [] h = cc
find-has_alias alias other ((signature, name) ∷ requested) h =
    ground (arith, equal_refl alias, equal_iff name alias, find-has_alias alias other requested)

is_requested-Asked :
    (requested : Map Bytes) (signature alias : Bytes)
    → IsSorted requested
    → (is_requested requested signature alias ≡ true) ↔ Asked requested signature alias
unfolding is_requested is_some
is_requested-Asked requested signature alias s = (
  λ h. elim (Option-cases (find signature requested)) [
    | inr (name, e) ↦ by_signature name e
    | inl e ↦ elim (Bool-cases (is_nil alias)) [
      | inl bare ↦ absurd (ground arith)
      | inr filled ↦
          let listed : has_alias alias requested ≡ true = ground arith in
          let (other, f) = has_alias-find alias requested s listed in by_alias other filled f
    ]
  ],
  λ asked. elim asked [
    | by_signature name e ↦ rw e refl
    | by_alias other filled e ↦ let listed = find-has_alias alias other requested e in ground arith
  ],
)

module _ (clang : Clang) where
  abbrev Info : Type 0
  Info = FunctionPointerTypeInfo clang

  -- what is kept of a type
  abbrev pub kept : Map Bytes → Bytes → Option Info → Option Info → Option Info
  kept requested signature none old = old
  kept requested signature (some info) old =
      if is_requested requested signature info.name then some info else old

  abbrev keep_one : Map Bytes → Bytes → Info → Map Info → Map Info
  keep_one requested k info m = if is_requested requested k info.name then assign k info m else m

  keep_one-IsSorted :
      (requested : Map Bytes) (k : Bytes) (info : Info) (m : Map Info)
      → IsSorted m
      → IsSorted (keep_one requested k info m)
  keep_one-IsSorted requested k info m s = elim (Bool-cases (is_requested requested k info.name)) [
    | inl is_in ↦ rw is_in (update-IsSorted k _ m s)
    | inr is_out ↦ rw is_out s
  ]

  find-keep_one :
      (requested : Map Bytes) (k signature : Bytes) (info : Info) (named m : Map Info)
      → IsSorted {V = Info} ((k, info) ∷ named)
      → IsSorted m
      → kept requested signature
          (find signature named)
          (find signature (keep_one requested k info m))
        ≡ kept requested signature
            (if equal signature k then some info else find signature named)
            (find signature m)
  find-keep_one requested k signature info named m t s = ground (
    arith,
    equal_iff signature k,
    find-Before k named t.0,
    find-update k signature (λ _. info) m s,
  )

  find-keep_callbacks :
      (requested : Map Bytes) (named types : Map Info) (signature : Bytes)
      → IsSorted named
      → IsSorted types
      → find signature (keep_callbacks clang requested named types)
        ≡ kept requested signature (find signature named) (find signature types)
  unfolding keep_callbacks find
  find-keep_callbacks requested [] types signature t s = refl
  find-keep_callbacks requested ((k, info) ∷ named) types signature t s =
      find-keep_callbacks requested named _ signature t.1
        (keep_one-IsSorted requested k info types s)
      ∙ find-keep_one requested k signature info named types t s

  -- the first type of the key
  unfoldable pub first_with_key : Bytes → Map Info → Option (Bytes × Info)
  first_with_key key [] = none
  first_with_key key ((signature, info) ∷ types) =
      let rest = first_with_key key types in
      if equal key (callback_key clang signature info) then some (signature, info) else rest

  abbrev pub proc_of :
      Collected clang → ProcDirection → Option (Bytes × Info) → Option (ProcSnippet clang)
  proc_of collected d none = none
  proc_of collected d (some (signature, info)) =
      some (callback_proc clang collected d signature info)

  find-add_callbacks :
      (collected : Collected clang) (types : Map Info)
      (procs : ProcDirection → Map (ProcSnippet clang)) (d : ProcDirection) (key : Bytes)
      → IsSorted (procs d)
      → find key (add_callbacks clang collected types procs d) ≡ elim (find key (procs d)) [
        | some p ↦ some p
        | none ↦ proc_of collected d (first_with_key key types)
      ]
  unfolding add_callbacks first_with_key
  find-add_callbacks collected [] procs d key s =
      elim (find key (procs d)) as (λ o. o ≡ elim o [ some p ↦ some p | none ↦ none ]) [
        | none ↦ refl
        | some p ↦ refl
      ]
  find-add_callbacks collected ((signature, info) ∷ types) procs d key s =
      let k = callback_key clang signature info in
      let proc = callback_proc clang collected d signature info in
      find-add_callbacks collected types _ d key (update-IsSorted k _ (procs d) s)
      ∙ ground (arith, find-update k key (keep_old k proc) (procs d) s, equal_iff key k)

  find-collect_types :
      (collected : Collected clang) (doc : Document clang) (signature : Bytes)
      → IsFresh clang doc
      → IsSorted collected.named_callback_by_signature
      → find signature (collect clang collected doc).callback_types
        ≡ kept doc.requested.callbacks signature
            (find signature collected.named_callback_by_signature)
            none
  unfolding find collect
  find-collect_types collected doc signature fresh sorted =
      find-keep_callbacks doc.requested.callbacks collected.named_callback_by_signature
        doc.callback_types signature sorted (subst IsSorted (sym fresh.1) tt)
      ∙ rw fresh.1 refl

  find-collect_callbacks :
      (collected : Collected clang) (doc : Document clang) (d : ProcDirection) (key : Bytes)
      → IsFresh clang doc
      → find key ((collect clang collected doc).callbacks d)
        ≡ proc_of collected d (first_with_key key (collect clang collected doc).callback_types)
  unfolding find collect
  find-collect_callbacks collected doc d key fresh =
      let types =
        keep_callbacks clang doc.requested.callbacks collected.named_callback_by_signature
          doc.callback_types in
      find-add_callbacks collected types doc.callbacks d key (subst IsSorted (sym (fresh.3 d)) tt)
      ∙ rw (fresh.3 d) refl

  -- The type of a signature is kept if it is named and asked for.
  pub data KeptType (requested : Map Bytes) (signature : Bytes)
      : Option Info → Option Info → Type 0 where
    kept_type :
        {info : Info}
        → Asked requested signature info.name
        → KeptType requested signature (some info) (some info)
    not_asked :
        {info : Info}
        → (Asked requested signature info.name → ⊥)
        → KeptType requested signature (some info) none
    not_named : KeptType requested signature none none

  kept-KeptType :
      (requested : Map Bytes) (signature : Bytes) (o : Option Info)
      → IsSorted requested
      → KeptType requested signature o (kept requested signature o none)
  kept-KeptType requested signature none s = not_named
  kept-KeptType requested signature (some info) s =
      let (asked, due) = is_requested-Asked requested signature info.name s in
      elim (Bool-cases (is_requested requested signature info.name)) [
        | inl is_in ↦ rw is_in (kept_type (asked is_in))
        | inr unasked ↦ rw unasked (not_asked (λ h. absurd (clash (due h) unasked)))
      ]

  -- The key of a type is its alias, or its signature without an alias.
  pub data HasKey (key signature : Bytes) (info : Info) : Type 0 where
    by_name : is_nil info.name ≡ false → key ≡ info.name → HasKey key signature info
    nameless : is_nil info.name ≡ true → key ≡ signature → HasKey key signature info

  abbrev pub NoKey : Bytes → Map Info → Type 0
  NoKey key types = All (λ e. HasKey key e.0 e.1 → ⊥) types

  -- The proc of the first type of the key, made with the descriptor of its signature and the
  -- definitions of the side.
  pub data FirstProc (collected : Collected clang) (d : ProcDirection) (key : Bytes)
      (types : Map Info) : Option (ProcSnippet clang) → Type 0 where
    first_proc :
        (before : Map Info) (signature : Bytes) (info : Info) (behind : Map Info)
        {proc : ProcSnippet clang}
        → types ≡ before ++ (signature, info) ∷ behind
        → NoKey key before
        → HasKey key signature info
        → IsMade clang callback d none info.pointer_type
            (if is_nil info.name
              then typedef_or_none clang (clang.typedef_name info.pointer_type)
              else info.name)
            (find signature collected.callback_desc_by_signature)
            (λ phase. find signature (collected.proc_cb_decl_by_signature d phase))
            proc
        → FirstProc collected d key types (some proc)
    no_proc : NoKey key types → FirstProc collected d key types none

  callback_key-HasKey :
      (key signature : Bytes) (info : Info)
      → (equal key (callback_key clang signature info) ≡ true) ↔ HasKey key signature info
  callback_key-HasKey key signature info = elim (Bool-cases (is_nil info.name)) [
    | inl bare ↦ (
      λ h. nameless bare ((equal_iff key signature).0 (rw bare at h)),
      λ k. elim k [
        | by_name filled e ↦ absurd (clash bare filled)
        | nameless _ e ↦ rw bare ((equal_iff key signature).1 e)
      ],
    )
    | inr filled ↦ (
      λ h. by_name filled ((equal_iff key info.name).0 (rw filled at h)),
      λ k. elim k [
        | by_name _ e ↦ rw filled ((equal_iff key info.name).1 e)
        | nameless bare e ↦ absurd (clash bare filled)
      ],
    )
  ]

  later :
      (collected : Collected clang) (d : ProcDirection) (key signature : Bytes) (info : Info)
      (types : Map Info) (o : Option (ProcSnippet clang))
      → (HasKey key signature info → ⊥)
      → FirstProc collected d key types o
      → FirstProc collected d key ((signature, info) ∷ types) o
  later collected d key signature info types _ differs (first_proc before t i behind e n k made) =
      first_proc ((signature, info) ∷ before) t i behind (ap (◌∷◌ (signature, info)) e) (differs, n)
        k made
  later collected d key signature info types _ differs (no_proc n) = no_proc (differs, n)

  first_with_key-FirstProc :
      (collected : Collected clang) (d : ProcDirection) (key : Bytes) (types : Map Info)
      → FirstProc collected d key types (proc_of collected d (first_with_key key types))
  unfolding first_with_key
  first_with_key-FirstProc collected d key [] = no_proc tt
  first_with_key-FirstProc collected d key ((signature, info) ∷ types) =
      let (has, due) = callback_key-HasKey key signature info in
      elim (Bool-cases (equal key (callback_key clang signature info))) [
        | inl here ↦ rw here (
            first_proc [] signature info types refl tt (has here)
              (callback_snippet-IsMade clang d info.pointer_type info.name _ _))
        | inr other ↦ rw other (
            later collected d key signature info types _ (λ k. absurd (clash (due k) other))
              (first_with_key-FirstProc collected d key types))
      ]

  -- In a new document, the types of callbacks are the named ones that are asked for: under their
  -- signature, or under an alias that they have. Under a key stands, on both sides, the proc of
  -- the first type of the key, which is the alias, or the signature without one; it is made of
  -- the type, with the descriptor of the signature and the definitions of the side.
  pub collect-callbacks :
      (collected : Collected clang) (doc : Document clang)
      → IsFresh clang doc
      → IsSorted collected.named_callback_by_signature
      → IsSorted doc.requested.callbacks
      → ((signature : Bytes)
          → KeptType doc.requested.callbacks signature
              (find signature collected.named_callback_by_signature)
              (find signature (collect clang collected doc).callback_types))
        × ((d : ProcDirection) (key : Bytes)
            → FirstProc collected d key
                (collect clang collected doc).callback_types
                (find key ((collect clang collected doc).callbacks d)))
  collect-callbacks collected doc fresh sorted asked = (
    λ signature.
        subst (KeptType doc.requested.callbacks signature _)
          (sym (find-collect_types collected doc signature fresh sorted))
          (kept-KeptType doc.requested.callbacks signature _ asked),
    λ d key.
        subst (FirstProc collected d key (collect clang collected doc).callback_types)
          (sym (find-collect_callbacks collected doc d key fresh))
          (first_with_key-FirstProc collected d key (collect clang collected doc).callback_types),
  )
