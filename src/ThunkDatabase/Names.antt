-- ===== src/ThunkDatabase/Names.antt =====
-- The index that `rebuildIndexes` of src/libs/DLCall/ThunkDatabase.cpp builds, against a search
-- through the entries in order.
use lorelei.Base.{
  ℕ, suc, ◌≡◌, refl, ◌∙◌, Bool, true, false, List, [], ◌∷◌, ◌++◌, Option, none, some, Bytes, equal,
  if◌then◌else◌, ok, get_elem?, Option-cases, Bool-cases, ◌⊎◌, append_assoc, length, length-append,
  get_elem?-append_length, inl, inr, arith,
}
use lorelei.Index.{Index, lookup, emplace, lookup-emplace, at-get_elem?}
use lorelei.ThunkDatabase.{index_names, index_entries, lookup_entry}

unfoldable pub has_name : Bytes → List Bytes → Bool
has_name k [] = false
has_name k (n ∷ ns) = if equal k n then true else has_name k ns

-- The first entry that has the name among its names.
unfoldable pub find_entry {ℓ} : {A : Type ℓ} → (A → List Bytes) → List A → Bytes → Option A
unfolding has_name
find_entry names [] k = none
find_entry names (x ∷ xs) k = if has_name k (names x) then some x else find_entry names xs k

-- its position
unfoldable pub find_index {ℓ} : {A : Type ℓ} → (A → List Bytes) → List A → ℕ → Bytes → Option ℕ
unfolding has_name
find_index names [] i k = none
find_index names (x ∷ xs) i k =
    if has_name k (names x) then some i else find_index names xs (suc i) k

abbrev pub or_else : Option ℕ → Option ℕ → Option ℕ
or_else (some i) o = some i
or_else none o = o

lookup-index_names :
    (k : Bytes) (ks : List Bytes) (i : ℕ) (m : Index)
    → lookup k (index_names ks i m) ≡ or_else (lookup k m) (if has_name k ks then some i else none)
unfolding index_names has_name
lookup-index_names k [] i m = elim (Option-cases (lookup k m)) [
  | inl e ↦ rw e refl
  | inr (j, e) ↦ rw e refl
]
lookup-index_names k (n ∷ ks) i m =
    lookup-index_names k ks i (emplace n i m) ∙ rw (lookup-emplace n k i m) (ground arith)

lookup-index_entries {ℓ} :
    {A : Type ℓ} (names : A → List Bytes) (xs : List A) (i : ℕ) (m : Index) (k : Bytes)
    → lookup k (index_entries names xs i m) ≡ or_else (lookup k m) (find_index names xs i k)
unfolding index_entries find_index
lookup-index_entries names [] i m k = ground arith
lookup-index_entries names (x ∷ xs) i m k =
    lookup-index_entries names xs (suc i) (index_names (names x) i m) k
    ∙ rw (lookup-index_names k (names x) i m) (ground arith)

-- What the search finds stands at the position it gives.
found {ℓ} :
    {A : Type ℓ} (names : A → List Bytes) (pre xs : List A) (k : Bytes)
    → ((find_index names xs (length pre) k ≡ none) × (find_entry names xs k ≡ none))
      ⊎ ((i : ℕ) × (x : A) × (find_index names xs (length pre) k ≡ some i)
          × (find_entry names xs k ≡ some x)
          × (get_elem? (pre ++ xs) i ≡ some x))
unfolding find_index find_entry
found names pre [] k = inl (refl, refl)
found names pre (x ∷ xs) k = elim (Bool-cases (has_name k (names x))) [
  | inl h ↦ inr (
    length pre,
    x,
    rw (h, find_index) refl,
    rw (h, find_entry) refl,
    get_elem?-append_length pre x xs,
  )
  | inr h ↦
      let n : length (pre ++ x ∷ []) ≡ suc (length pre) =
        omega (arith, length-append pre (x ∷ [])) in
      elim (found names (pre ++ x ∷ []) xs k) [
        | inl (a, b) ↦ inl (rw (h, find_index) (rw n at a), rw (h, find_entry) b)
        | inr (i, y, a, b, c) ↦
            inr (i, y, rw (h, find_index) (rw n at a), rw (h, find_entry) b, rw append_assoc at c)
      ]
]

-- A lookup through the index that rebuildIndexes builds gives the first entry that has the name
-- as its name or as an alias, a null pointer if none has it, and stays in bounds.
pub lookup_entry-index_entries {ℓ} :
    {A : Type ℓ} (names : A → List Bytes) (xs : List A) (k : Bytes)
    → lookup_entry xs (index_entries names xs 0 []) k ≡ ok (find_entry names xs k)
unfolding lookup_entry lookup
lookup_entry-index_entries names xs k =
    let at_index = lookup-index_entries names xs 0 [] k in
    elim (found names [] xs k) [
      | inl (a, b) ↦ rw (at_index, a, b, lookup_entry) refl
      | inr (i, x, a, b, c) ↦ rw (at_index, a, b, lookup_entry, at-get_elem? xs i c) refl
    ]

pub find_entry-append {ℓ} :
    {A : Type ℓ} (names : A → List Bytes) (xs ys : List A) (k : Bytes) (x : A)
    → find_entry names xs k ≡ some x
    → find_entry names (xs ++ ys) k ≡ some x
unfolding find_entry
find_entry-append names [] ys k x h = cc
find_entry-append names (y ∷ xs) ys k x h = elim (Bool-cases (has_name k (names y))) [
  | inl e ↦ rw (e, find_entry) (rw (e, find_entry) at h)
  | inr e ↦ rw (e, find_entry) (find_entry-append names xs ys k x (rw (e, find_entry) at h))
]
