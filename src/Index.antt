-- ===== src/Index.antt =====
-- `std::unordered_map<std::string, size_t>` beside a `std::vector` whose elements have names, as
-- `ConfigFile::Section`, `ConfigFile` and `ThunkDatabase` keep it, and the unchecked access to the
-- vector. The first entry for a key counts.
use lorelei.Base.{
  ℕ, zero, suc, ◌≡◌, ◌↔◌, ◌⊎◌, refl, ap, List, [], ◌∷◌, ◌++◌, Option, none, some, Bytes, equal,
  equal_iff, equal_refl, length, get_elem?, get_elem?-append_left, get_elem?-append_length, Run, ok,
  undefined, if◌then◌else◌, Bool-cases, inl, inr, arith,
}

abbrev pub Index : Type 0
Index = List (Bytes × ℕ)

-- `index.find(key)`
unfoldable pub lookup : Bytes → Index → Option ℕ
lookup k [] = none
lookup k ((j, i) ∷ m) = if equal k j then some i else lookup k m

-- `index[key] = i`
abbrev pub assign : Bytes → ℕ → Index → Index
assign k i m = (k, i) ∷ m

-- `index.emplace(key, i)`
unfoldable pub emplace : Bytes → ℕ → Index → Index
unfolding lookup
emplace k i m = elim (lookup k m) [ none ↦ assign k i m | some j ↦ m ]

-- `items[i]`
unfoldable pub at {ℓ} : {A : Type ℓ} → List A → ℕ → Run A
at [] i = undefined
at (x ∷ xs) zero = ok x
at (x ∷ xs) (suc i) = at xs i

pub at-get_elem? {ℓ} :
    {A : Type ℓ} (xs : List A) (i : ℕ) {a : A} → get_elem? xs i ≡ some a → at xs i ≡ ok a
unfolding at
at-get_elem? [] i h = cc
at-get_elem? (x ∷ xs) zero h = cc
at-get_elem? (x ∷ xs) (suc i) h = at-get_elem? xs i h

pub lookup-emplace :
    (k j : Bytes) (i : ℕ) (m : Index)
    → lookup j (emplace k i m)
      ≡ elim (lookup j m) [ some n ↦ some n | none ↦ if equal j k then some i else none ]
unfolding lookup emplace
lookup-emplace k j i m = ground (arith, equal_iff j k)

-- The index holds the position of every name, and nothing else. So the names differ.
abbrev pub Indexed : List Bytes → Index → Type 0
Indexed names m = (k : Bytes) (i : ℕ) → (lookup k m ≡ some i) ↔ (get_elem? names i ≡ some k)

pub Indexed-nil : Indexed [] []
unfolding lookup
Indexed-nil k i = (λ e. cc, λ e. cc)

get_elem?-concat :
    (names : List Bytes) (k j : Bytes) (i : ℕ)
    → get_elem? (names ++ k ∷ []) i ≡ some j
    → (get_elem? names i ≡ some j) ⊎ ((i ≡ length names) × (j ≡ k))
get_elem?-concat [] k j zero h = inr (refl, cc)
get_elem?-concat [] k j (suc i) h = cc
get_elem?-concat (x ∷ names) k j zero h = inl h
get_elem?-concat (x ∷ names) k j (suc i) h = elim (get_elem?-concat names k j i h) [
  | inl e ↦ inl e
  | inr (e, f) ↦ inr (ap (λ n. suc n) e, f)
]

pub Indexed-concat :
    (names : List Bytes) (m : Index) (k : Bytes)
    → Indexed names m
    → lookup k m ≡ none
    → Indexed (names ++ k ∷ []) (assign k (length names) m)
unfolding lookup
Indexed-concat names m k h new j i = (
  λ e. elim (Bool-cases (equal j k)) [
    | inl same ↦
        let here = rw same at e in
        let n : length names ≡ i = cc here in
        rw (← n, (equal_iff j k).0 same) (get_elem?-append_length names k [])
    | inr other ↦ get_elem?-append_left names (k ∷ []) i ((h j i).0 (rw other at e))
  ],
  λ e. elim (get_elem?-concat names k j i e) [
    | inl old ↦ ground (arith, (h j i).1 old, equal_iff j k)
    | inr (n, same) ↦ rw (same, equal_refl, n)
  ],
)
