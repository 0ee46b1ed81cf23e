-- ===== src/Tlc/Callbacks/Ends.antt =====
-- The walk of src/tools/TLC/Commands/Stat.cpp ends: each text is visited once.
use lorelei.Base.{
  ℕ, zero, suc, ◌+◌, ◌*◌, ◌≤◌, ◌<◌, ◌≡◌, ◌⊎◌, inl, inr, refl, sym, subst, false, List, [], ◌∷◌,
  Bytes, is_some, length, if◌then◌else◌, Bool-cases, arith, Ends,
}
use lorelei.Ordered.{Map, Set, find, add}
use lorelei.Ordered.Laws.{IsSorted, update-IsSorted}
use lorelei.Tlc.Summary.{ManifestSummary}
use lorelei.Tlc.Callbacks.{TypeSystem, push, walk, visit}
use lorelei.Tlc.Callbacks.Reach.{
  Has-update, Has-update_self, In, name_of, children, Reach, child_item, push_inv, length-push,
  walk-old, walk-new,
}

-- the texts that are not visited
pub fresh : List Bytes → Set → ℕ
fresh [] visited = 0
fresh (n ∷ names) visited = (if is_some (find n visited) then 0 else 1) + fresh names visited

abbrev pub Among : Bytes → List Bytes → Type 0
Among k [] = ⊥
Among k (n ∷ names) = (n ≡ k) ⊎ Among k names

fresh-add_le :
    (names : List Bytes) (k : Bytes) (visited : Set)
    → IsSorted visited
    → fresh names (add k visited) ≤ fresh names visited
unfolding fresh
fresh-add_le [] k visited s = omega arith
fresh-add_le (n ∷ names) k visited s = elim (Bool-cases (is_some (find n visited))) [
  | inl old ↦
      rw (old, Has-update k n _ visited s old) (omega (arith, fresh-add_le names k visited s))
  | inr new ↦ rw new (ground (arith, fresh-add_le names k visited s))
]

fresh-add :
    (names : List Bytes) (k : Bytes) (visited : Set)
    → IsSorted visited
    → Among k names
    → is_some (find k visited) ≡ false
    → fresh names (add k visited) < fresh names visited
unfolding fresh
fresh-add [] k visited s a n = absurd a
fresh-add (m ∷ names) k visited s (inl e) n =
    rw (e, n, Has-update_self k _ visited s) (omega (arith, fresh-add_le names k visited s))
fresh-add (m ∷ names) k visited s (inr a) n = elim (Bool-cases (is_some (find m visited))) [
  | inl old ↦
      rw (old, Has-update k m _ visited s old) (omega (arith, fresh-add names k visited s a n))
  | inr new ↦ rw new (ground (arith, fresh-add names k visited s a n))
]

step_down : (a b w : ℕ) → a < b → a * suc w + suc w ≤ b * suc w
step_down a b w h = grind arith

mul_le : (a b w : ℕ) → a ≤ b → a * w ≤ b * w
mul_le a b w h = grind arith

fresh-le : (names : List Bytes) (visited : Set) → fresh names visited ≤ length names
unfolding fresh
fresh-le [] visited = omega arith
fresh-le (n ∷ names) visited = ground (arith, fresh-le names visited)

pub fresh-bound :
    (names : List Bytes) (visited : Set) (width rest fuel : ℕ)
    → length names * suc width + rest < fuel
    → fresh names visited * suc width + rest < fuel
fresh-bound names visited width rest fuel h =
    omega (arith, mul_le (fresh names visited) (length names) (suc width) (fresh-le names visited))

module _ (types : TypeSystem) where
  open types use {QualType, get_canonical_type, get_type_string, shape}

  -- Types that lead to each other: their texts are among the names, and none leads to more types
  -- than the width.
  pub record Bounded (first : List (QualType × Bytes)) (names : List Bytes) (width : ℕ)
      : Type 0 where
    pub named : (t : QualType) → Reach types first t → Among (name_of types t) names
    pub wide : (t : QualType) → Reach types first t → length (children types t) ≤ width

  module _ (first : List (QualType × Bytes)) (names : List Bytes) (width : ℕ)
      (seed_origin preferred : Bytes) (aliases : Map Bytes) (b : Bounded first names width) where
    pub walk-Ends :
        (fuel : ℕ) (stack : List (QualType × Bytes)) (visited : Set) (summary : ManifestSummary)
        → IsSorted visited
        → ((t : QualType) → In types t stack → Reach types first t)
        → fresh names visited * suc width + length stack < fuel
        → Ends (walk types seed_origin preferred aliases fuel stack visited summary)
    unfolding walk
    walk-Ends zero stack visited summary s r h = absurd (omega arith)
    walk-Ends (suc fuel) [] visited summary s r h = tt
    walk-Ends (suc fuel) ((t, origin) ∷ stack) visited summary s r h =
        elim (Bool-cases (is_some (find (name_of types t) visited))) [
          | inl old ↦
              subst Ends
                (sym (
                  walk-old types seed_origin preferred aliases fuel t origin stack visited summary
                    old))
                (walk-Ends fuel stack visited summary s (λ u i. r u (inr i)) (omega arith))
          | inr new ↦
              let reached = r t (inl refl) in
              let less_fresh =
                fresh-add names (name_of types t) visited s (b.named t reached) new in
              subst Ends
                (sym (
                  walk-new types seed_origin preferred aliases fuel t origin stack visited summary
                    new))
                (walk-Ends fuel (push types origin (children types t) stack)
                  (add (name_of types t) visited)
                  (visit types seed_origin preferred aliases (get_canonical_type t) origin summary)
                  (update-IsSorted (name_of types t) _ visited s)
                  (λ u i. elim (push_inv types u origin (children types t) stack i) [
                    | inl new_one ↦ child_item types t u reached new_one
                    | inr old_one ↦ r u (inr old_one)
                  ])
                  (omega (
                    arith,
                    length-push types origin (children types t) stack,
                    b.wide t reached,
                    step_down _ _ width less_fresh,
                  )))
        ]
