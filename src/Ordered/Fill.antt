-- ===== src/Ordered/Fill.antt =====
-- Maps that are filled from lists of entries.
use lorelei.Base.{
  ◌≡◌, refl, ◌∙◌, true, [], ◌∷◌, ◌++◌, append_assoc, append-nil, Option, none, some, Bytes,
  equal_iff, arith, sym, subst,
}
use lorelei.Ordered.{Map, find, update, keep_old}
use lorelei.Ordered.Order.{less, less-asymm}
use lorelei.Ordered.Laws.{Before, IsSorted, update-IsSorted, find-update}

module _ {ℓ} {V : Type ℓ} where
  -- A loop over entries that makes each entry from what is there under its key.
  unfoldable pub update_all : (Bytes → V → Option V → V) → Map V → Map V → Map V
  update_all g [] m = m
  update_all g ((k, v) ∷ entries) m = update_all g entries (update k (g k v) m)

  -- `for (const auto &e : entries) m.insert(e)`
  abbrev pub insert_all : Map V → Map V → Map V
  insert_all = update_all keep_old

  pub insert_all-IsSorted : (entries m : Map V) → IsSorted m → IsSorted (insert_all entries m)
  unfolding update_all
  insert_all-IsSorted [] m s = s
  insert_all-IsSorted ((k, v) ∷ entries) m s =
      insert_all-IsSorted entries (update k (keep_old k v) m) (update-IsSorted k _ m s)

  -- what is there first counts
  pub find-insert_all :
      (k : Bytes) (entries m : Map V)
      → IsSorted m
      → find k (insert_all entries m) ≡ elim (find k m) [ some v ↦ some v | none ↦ find k entries ]
  unfolding update_all find
  find-insert_all k [] m s =
      elim (find k m) as (λ o. o ≡ elim o [ some v ↦ some v | none ↦ none ]) [
        | none ↦ refl
        | some v ↦ refl
      ]
  find-insert_all k ((j, v) ∷ entries) m s =
      find-insert_all k entries (update j (keep_old j v) m) (update-IsSorted j _ m s)
      ∙ ground (arith, find-update j k (keep_old j v) m s, equal_iff k j)

  -- The key stands behind all of the map.
  abbrev pub After : Bytes → Map V → Type 0
  After k [] = Unit
  After k ((j, v) ∷ m) = (less j k ≡ true) × After k m

  update-After :
      (k : Bytes) (f : Option V → V) (m : Map V) → After k m → update k f m ≡ m ++ (k, f none) ∷ []
  unfolding update
  update-After k f [] a = refl
  update-After k f ((j, v) ∷ m) a = ground (arith, less-asymm j k, update-After k f m)

  Before-member :
      (j : Bytes) (m : Map V) (k : Bytes) (v : V) (r : Map V)
      → Before j (m ++ (k, v) ∷ r)
      → less j k ≡ true
  Before-member j [] k v r b = b.0
  Before-member j ((i, w) ∷ m) k v r b = Before-member j m k v r b.1

  -- The part before an entry of a map in order stands before its key.
  IsSorted-After :
      (m : Map V) (k : Bytes) (v : V) (r : Map V) → IsSorted (m ++ (k, v) ∷ r) → After k m
  IsSorted-After [] k v r s = tt
  IsSorted-After ((j, w) ∷ m) k v r s = (Before-member j m k v r s.0, IsSorted-After m k v r s.1)

  -- From an empty map a loop over the entries of a map in order makes the map.
  pub update_all-append :
      (g : Bytes → V → Option V → V)
      → ((k : Bytes) (v : V) → g k v none ≡ v)
      → (entries m : Map V) → IsSorted (m ++ entries)
      → update_all g entries m ≡ m ++ entries
  unfolding update_all
  update_all-append g fresh [] m s = sym (append-nil m)
  update_all-append g fresh ((k, v) ∷ entries) m s =
      let e = update-After k (g k v) m (IsSorted-After m k v entries s) in
      let regroup : (m ++ (k, v) ∷ []) ++ entries ≡ m ++ (k, v) ∷ entries = append_assoc m _ _ in
      rw (e, fresh k v)
        (update_all-append g fresh entries (m ++ (k, v) ∷ []) (subst IsSorted (sym regroup) s)
          ∙ regroup)
