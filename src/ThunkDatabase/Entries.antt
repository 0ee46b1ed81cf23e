-- ===== src/ThunkDatabase/Entries.antt =====
-- `upsertForward` of src/libs/DLCall/ThunkDatabase.cpp and its index `m_forwardIndex`.
use lorelei.Base.{
  ℕ, ◌≡◌, ◌≢◌, refl, ap, ◌∙◌, sym, Bool, true, false, List, [], ◌∷◌, ◌++◌, map, none, some, Bytes,
  equal, equal_iff, equal_refl, Gives, get_elem?, set, length, Option-cases, Bool-cases, ◌⊎◌, inl,
  inr, arith, ◌==◌, get_elem?-append_left, get_elem?-append_length, get_elem?-set_self,
  get_elem?-set_ne, get_elem?-lt_length, append-nil,
}
use mathlib.Core.Option.{some-injective}
use lorelei.Index.{Index, lookup, emplace, lookup-emplace, at-get_elem?}
use lorelei.ThunkDatabase.{ThunkDatabase, CForwardThunkInfo, upsert_forward, new_forward, intern}

-- Elements are added at the back.
abbrev pub Grows {ℓ} : {A : Type ℓ} → List A → List A → Type ℓ
Grows {A = A} xs ys = (more : List A) × (ys ≡ xs ++ more)

abbrev pub names : List CForwardThunkInfo → List Bytes
names items = map (λ (x : CForwardThunkInfo). x.name) items

-- The index leads to an entry of the name.
abbrev pub IsIndexed : ThunkDatabase → Type 0
IsIndexed db =
    (k : Bytes) (i : ℕ)
    → lookup k db.forward_index ≡ some i
    → (x : CForwardThunkInfo) × (get_elem? db.forward_thunks i ≡ some x) × (x.name ≡ intern k)

-- What `upsertForward` does for a name: the index leads to an entry of the name, which is the new
-- one if there was none or it overwrites. Every other entry keeps its position.
pub record Upserted (db : ThunkDatabase) (name : Bytes) (info : CForwardThunkInfo)
    (overwrite : Bool) (db' : ThunkDatabase) : Type 0 where
  pub place : ℕ
  pub entry : CForwardThunkInfo
  pub indexed : lookup name db'.forward_index ≡ some place
  pub placed : get_elem? db'.forward_thunks place ≡ some entry
  pub replaced : (lookup name db.forward_index ≡ none) ⊎ (overwrite ≡ true) → entry ≡ info
  pub others :
      (i : ℕ) (x : CForwardThunkInfo)
      → get_elem? db.forward_thunks i ≡ some x
      → (i ≢ place) ⊎ (overwrite ≡ false)
      → get_elem? db'.forward_thunks i ≡ some x
  pub grows : overwrite ≡ false → Grows db.forward_thunks db'.forward_thunks
  pub reversed_same : db'.reversed_thunks ≡ db.reversed_thunks
  pub forward_map_same : db'.forward_thunk_map ≡ db.forward_thunk_map
  pub reversed_map_same : db'.reversed_thunk_map ≡ db.reversed_thunk_map
  pub valid : IsIndexed db'

-- The entry of a name after a write at another entry of that name.
set-IsIndexed :
    (db : ThunkDatabase) (name : Bytes) (i : ℕ) (info : CForwardThunkInfo)
    → IsIndexed db
    → lookup name db.forward_index ≡ some i
    → info.name ≡ intern name
    → IsIndexed (record db { forward_thunks = set db.forward_thunks i info })
set-IsIndexed db name i info v e n k j h =
    let (old, at_i, old_name) = v name i e in
    let (x, at_j, x_name) = v k j h in
    elim (Bool-cases (i == j)) [
      | inl same ↦
          let ij : i ≡ j = ground arith in
          (
            info,
            rw (← ij) (
                get_elem?-set_self db.forward_thunks i info
                  (get_elem?-lt_length db.forward_thunks i at_i)),
            n
                ∙ sym old_name
                ∙ ap (λ (y : CForwardThunkInfo). y.name)
                    (some-injective old x (sym at_i ∙ ap (get_elem? db.forward_thunks) ij ∙ at_j))
                ∙ x_name,
          )
      | inr other ↦ (x, get_elem?-set_ne db.forward_thunks i j info (ground arith) ∙ at_j, x_name)
    ]

concat-IsIndexed :
    (db : ThunkDatabase) (name : Bytes) (info : CForwardThunkInfo)
    → IsIndexed db
    → lookup name db.forward_index ≡ none
    → info.name ≡ intern name
    → IsIndexed (record db {
      forward_index = emplace name (length db.forward_thunks) db.forward_index;
      forward_thunks = db.forward_thunks ++ info ∷ [];
    })
concat-IsIndexed db name info v e n k j h =
    let here = sym (lookup-emplace name k (length db.forward_thunks) db.forward_index) ∙ h in
    elim (Option-cases (lookup k db.forward_index)) [
      | inr (m, f) ↦
          let (x, at_m, x_name) = v k m f in
          let mj : m ≡ j = some-injective _ _ (rw f at here) in
          (x, get_elem?-append_left db.forward_thunks (info ∷ []) j (rw (← mj) at_m), x_name)
      | inl f ↦ elim (Bool-cases (equal k name)) [
        | inl same ↦
            let mj : length db.forward_thunks ≡ j = some-injective _ _ (rw (f, same) at here) in
            (
              info,
              rw (← mj) (get_elem?-append_length db.forward_thunks info []),
              n ∙ ap intern (sym ((equal_iff k name).0 same)),
            )
        | inr other ↦ let no = rw (f, other) at here in cc
      ]
    ]

lookup-emplace_self :
    (name : Bytes) (i : ℕ) (m : Index)
    → lookup name m ≡ none
    → lookup name (emplace name i m) ≡ some i
lookup-emplace_self name i m e = lookup-emplace name name i m ∙ rw (e, equal_refl) refl

added :
    (db : ThunkDatabase) (name : Bytes) (info : CForwardThunkInfo) (overwrite : Bool)
    → IsIndexed db
    → lookup name db.forward_index ≡ none
    → info.name ≡ intern name
    → Upserted db name info overwrite (record db {
      forward_index = emplace name (length db.forward_thunks) db.forward_index;
      forward_thunks = db.forward_thunks ++ info ∷ [];
    })
added db name info overwrite v e n = record {
  place = length db.forward_thunks;
  entry = info;
  indexed = lookup-emplace_self name (length db.forward_thunks) db.forward_index e;
  placed = get_elem?-append_length db.forward_thunks info [];
  replaced = λ h. refl;
  others = λ i x h o. get_elem?-append_left db.forward_thunks (info ∷ []) i h;
  grows = λ h. (info ∷ [], refl);
  reversed_same = refl;
  forward_map_same = refl;
  reversed_map_same = refl;
  valid = concat-IsIndexed db name info v e n;
}

written :
    (db : ThunkDatabase) (name : Bytes) (info : CForwardThunkInfo) (i : ℕ)
    → IsIndexed db
    → lookup name db.forward_index ≡ some i
    → info.name ≡ intern name
    → Upserted db name info true (record db { forward_thunks = set db.forward_thunks i info })
written db name info i v e n =
    let (old, at_i, old_name) = v name i e in
    record {
      place = i;
      entry = info;
      indexed = e;
      placed =
          get_elem?-set_self db.forward_thunks i info
            (get_elem?-lt_length db.forward_thunks i at_i);
      replaced = λ h. refl;
      others = λ j x h o.
          get_elem?-set_ne db.forward_thunks i j info
            (elim o [ inl ne ↦ λ ij. ne (sym ij) | inr never ↦ cc ])
          ∙ h;
      grows = λ h. cc;
      reversed_same = refl;
      forward_map_same = refl;
      reversed_map_same = refl;
      valid = set-IsIndexed db name i info v e n;
    }

kept :
    (db : ThunkDatabase) (name : Bytes) (info : CForwardThunkInfo) (i : ℕ)
    → IsIndexed db
    → lookup name db.forward_index ≡ some i
    → Upserted db name info false db
kept db name info i v e =
    let (old, at_i, old_name) = v name i e in
    record {
      place = i;
      entry = old;
      indexed = e;
      placed = at_i;
      replaced = elim [ inl never ↦ cc | inr never ↦ cc ];
      others = λ j x h o. h;
      grows = λ h. ([], sym (append-nil db.forward_thunks));
      reversed_same = refl;
      forward_map_same = refl;
      reversed_map_same = refl;
      valid = v;
    }

-- From an index that leads to entries of the names, upsertForward returns; the index leads to an
-- entry of the name, the new one if there was none or it overwrites, every other entry keeps its
-- position, and without overwriting all do.
pub upsert_forward-Upserted :
    (db : ThunkDatabase) (name : Bytes) (alias : List Bytes) (guest host library : Bytes)
    (overwrite : Bool)
    → IsIndexed db
    → Gives
        (upsert_forward db name alias guest host library overwrite)
        (Upserted db name (new_forward name alias guest host library) overwrite)
unfolding upsert_forward
upsert_forward-Upserted db name alias guest host library overwrite v =
    let info = new_forward name alias guest host library in
    elim (Option-cases (lookup name db.forward_index)) [
      | inl e ↦ rw (e, upsert_forward) (added db name info overwrite v e refl)
      | inr (i, e) ↦
          let (old, at_i, n) = v name i e in
          elim (Bool-cases overwrite) [
            | inl o ↦
                rw (e, o, upsert_forward, at-get_elem? db.forward_thunks i at_i)
                  (written db name info i v e refl)
            | inr o ↦ rw (e, o, upsert_forward) (kept db name info i v e)
          ]
    ]
