-- ===== src/Ordered/Laws.antt =====
-- An ordered map stays in order, an update is seen under its key and under no other, and two maps
-- with the same entries are equal.
use lorelei.Base.{
  ◌≡◌, inl, inr, refl, true, false, [], ◌∷◌, Option, none, some, Bytes, equal, equal_iff,
  equal_refl, if◌then◌else◌, Bool-cases, arith, sym, ap, subst, ◌∙◌,
}
use lorelei.Ordered.{Map, find, update}
use lorelei.Ordered.Order.{less, less_irrefl, less_trans, less_total, less-ne, less-ne'}

module _ {ℓ} {V : Type ℓ} where
  -- The key stands before all of the map.
  abbrev pub Before : Bytes → Map V → Type 0
  Before k [] = Unit
  Before k ((j, v) ∷ m) = (less k j ≡ true) × Before k m

  abbrev pub IsSorted : Map V → Type 0
  IsSorted [] = Unit
  IsSorted ((j, v) ∷ m) = Before j m × IsSorted m

  Before-trans : (k j : Bytes) (m : Map V) → less k j ≡ true → Before j m → Before k m
  Before-trans k j [] h b = tt
  Before-trans k j ((i, v) ∷ m) h b = (less_trans k j i h b.0, Before-trans k j m h b.1)

  Before-update :
      (j k : Bytes) (f : Option V → V) (m : Map V)
      → less j k ≡ true
      → Before j m
      → Before j (update k f m)
  unfolding update
  Before-update j k f [] h b = (h, tt)
  Before-update j k f ((i, v) ∷ m) h b = ground (arith, Before-update j k f m)

  pub update-IsSorted :
      (k : Bytes) (f : Option V → V) (m : Map V) → IsSorted m → IsSorted (update k f m)
  unfolding update
  update-IsSorted k f [] s = (tt, tt)
  update-IsSorted k f ((j, v) ∷ m) s =
      ground (arith, update-IsSorted k f m, Before-update j k f m, Before-trans k j m)

  pub find-Before : (k : Bytes) (m : Map V) → Before k m → find k m ≡ none
  unfolding find
  find-Before k [] b = refl
  find-Before k ((j, v) ∷ m) b = ground (arith, less-ne k j, find-Before k m)

  pub find-update_self :
      (k : Bytes) (f : Option V → V) (m : Map V)
      → IsSorted m
      → find k (update k f m) ≡ some (f (find k m))
  unfolding find update
  find-update_self k f [] s = rw equal_refl refl
  find-update_self k f ((i, v) ∷ m) s = ground (
    arith,
    equal_refl k,
    equal_iff k i,
    less_irrefl k,
    less-ne k i,
    less-ne' i k,
    less_total k i,
    find-update_self k f m,
    find-Before k m,
    Before-trans k i m,
  )

  pub find-update_ne :
      (k j : Bytes) (f : Option V → V) (m : Map V)
      → equal j k ≡ false
      → find j (update k f m) ≡ find j m
  unfolding find update
  find-update_ne k j f [] d = rw d refl
  find-update_ne k j f ((i, v) ∷ m) d =
      ground (arith, equal_iff j i, equal_iff j k, less_total k i, find-update_ne k j f m)

  pub find-update :
      (k j : Bytes) (f : Option V → V) (m : Map V)
      → IsSorted m
      → find j (update k f m) ≡ (if equal j k then some (f (find k m)) else find j m)
  find-update k j f m s = elim (Bool-cases (equal j k)) [
    | inl same ↦ rw same (rw ((equal_iff j k).0 same) (find-update_self k f m s))
    | inr other ↦ rw other (find-update_ne k j f m other)
  ]

  find-tail :
      (k j : Bytes) (v w : V) (m n : Map V)
      → Before j m
      → Before j n
      → find k ((j, v) ∷ m) ≡ find k ((j, w) ∷ n)
      → find k m ≡ find k n
  unfolding find
  find-tail k j v w m n b c h = ground (arith, equal_iff k j, find-Before j m, find-Before j n)

  -- Maps in order with the same entries are the same.
  pub find-ext :
      (m n : Map V) → IsSorted m → IsSorted n → ((k : Bytes) → find k m ≡ find k n) → m ≡ n
  unfolding find
  find-ext [] [] s t h = refl
  find-ext [] ((i, w) ∷ n) s t h = absurd (ground (arith, h i, equal_refl i))
  find-ext ((j, v) ∷ m) [] s t h = absurd (ground (arith, h j, equal_refl j))
  find-ext ((j, v) ∷ m) ((i, w) ∷ n) s t h = elim (Bool-cases (less j i)) [
    | inl low ↦ absurd (
        ground (arith, h j, equal_refl j, less-ne j i, find-Before j n, Before-trans j i n low t.0))
    | inr not_low ↦ elim (Bool-cases (less i j)) [
      | inl high ↦ absurd (
          ground
            (arith, h i, equal_refl i, less-ne i j, find-Before i m, Before-trans i j m high s.0))
      | inr not_high ↦
          let e : j ≡ i = less_total j i not_low not_high in
          let b : Before j n = subst (λ k. Before k n) (sym e) t.0 in
          let h' : (k : Bytes) → find k ((j, v) ∷ m) ≡ find k ((j, w) ∷ n) =
            λ k. h k ∙ ap (λ x. find k ((x, w) ∷ n)) (sym e) in
          let same : v ≡ w = ground (arith, h' j, equal_refl j) in
          let rest = find-ext m n s.1 t.1 (λ k. find-tail k j v w m n s.0 b (h' k)) in
          rw (same, e, rest) refl
    ]
  ]
