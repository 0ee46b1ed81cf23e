-- ===== src/Tlc/Callbacks/Settled.antt =====
-- What the walk of src/tools/TLC/Commands/Stat.cpp has visited and recorded when it ends.
use lorelei.Base.{
  ℕ, zero, suc, ◌≡◌, ◌⊎◌, inl, inr, ◌∙◌, true, List, [], ◌∷◌, Bytes, is_some, Bool-cases, sym, ok,
  subst, ok-injective,
}
use lorelei.Ordered.{Map, Set, find, add}
use lorelei.Ordered.Laws.{IsSorted, update-IsSorted}
use lorelei.Tlc.Summary.{ManifestSummary}
use lorelei.Tlc.Callbacks.{TypeSystem, is_function_pointer, items, push, walk, visit}
use lorelei.Tlc.Callbacks.Reach.{
  Has, Has-update, Has-update_self, Has-update_inv, In, name_of, children, Reach, start, child,
  items-LeadsTo, In-push, In-push_items, walk-old, walk-new,
}
use lorelei.Tlc.Callbacks.Sound.{IsFunctionPointer, visit-IsSorted, visit-Has, visit-Has_self}

module _ (types : TypeSystem) where
  open types use {QualType, get_canonical_type, get_type_string, shape}

  -- Of canonical types no two have the same text.
  abbrev pub TextsDiffer : Type 0
  TextsDiffer =
      (t u : QualType)
      → name_of types t ≡ name_of types u
      → get_canonical_type t ≡ get_canonical_type u

  module _ (seed_origin preferred : Bytes) (aliases : Map Bytes) where
    -- What is visited, and what is recorded, stays.
    pub walk-keeps :
        (k : Bytes) (fuel : ℕ) (stack : List (QualType × Bytes)) (visited : Set)
        (s : ManifestSummary) {out : Set × ManifestSummary}
        → IsSorted visited
        → IsSorted s.callbacks
        → walk types seed_origin preferred aliases fuel stack visited s ≡ ok out
        → (Has k visited → Has k out.0) × (Has k s.callbacks → Has k out.1.callbacks)
    unfolding walk
    walk-keeps k zero stack visited s vs ss h = cc
    walk-keeps k (suc fuel) [] visited s {out = out} vs ss h =
        subst
          (λ (x : Set × ManifestSummary).
            (Has k visited → Has k x.0) × (Has k s.callbacks → Has k x.1.callbacks))
          (ok-injective h) (λ i. i, λ i. i)
    walk-keeps k (suc fuel) ((t, origin) ∷ stack) visited s vs ss h =
        elim (Bool-cases (is_some (find (name_of types t) visited))) [
          | inl old ↦ walk-keeps k fuel stack visited s vs ss (
              sym (walk-old types seed_origin preferred aliases fuel t origin stack visited s old)
              ∙ h)
          | inr new ↦
              let (v, c) =
                walk-keeps k fuel (push types origin (children types t) stack)
                  (add (name_of types t) visited)
                  (visit types seed_origin preferred aliases (get_canonical_type t) origin s)
                  (update-IsSorted (name_of types t) _ visited vs)
                  (visit-IsSorted types seed_origin preferred aliases (get_canonical_type t) origin
                    s ss)
                  (sym (
                      walk-new types seed_origin preferred aliases fuel t origin stack visited s
                        new)
                    ∙ h) in
              (
                λ i. v (Has-update (name_of types t) k _ visited vs i),
                λ i. c (
                    visit-Has types seed_origin preferred aliases (get_canonical_type t) origin s k
                      ss i),
              )
        ]

    -- All that is on the stack is visited in the end.
    pub walk-stack :
        (u : QualType) (fuel : ℕ) (stack : List (QualType × Bytes)) (visited : Set)
        (s : ManifestSummary) {out : Set × ManifestSummary}
        → IsSorted visited
        → IsSorted s.callbacks
        → walk types seed_origin preferred aliases fuel stack visited s ≡ ok out
        → In types u stack
        → Has (name_of types u) out.0
    unfolding walk
    walk-stack u zero stack visited s vs ss h i = cc
    walk-stack u (suc fuel) [] visited s vs ss h i = absurd i
    walk-stack u (suc fuel) ((t, origin) ∷ stack) visited s {out = out} vs ss h i =
        elim (Bool-cases (is_some (find (name_of types t) visited))) [
          | inl old ↦
              let h' =
                sym (walk-old types seed_origin preferred aliases fuel t origin stack visited s old)
                ∙ h in
              elim i [
                | inl e ↦
                    subst (λ w. Has (name_of types w) out.0) e
                      ((walk-keeps (name_of types t) fuel stack visited s vs ss h').0 old)
                | inr more ↦ walk-stack u fuel stack visited s vs ss h' more
              ]
          | inr new ↦
              let h' =
                sym (walk-new types seed_origin preferred aliases fuel t origin stack visited s new)
                ∙ h in
              let vs' = update-IsSorted (name_of types t) _ visited vs in
              let ss' =
                visit-IsSorted types seed_origin preferred aliases (get_canonical_type t) origin s
                  ss in
              elim i [
                | inl e ↦
                    subst (λ w. Has (name_of types w) out.0) e
                      ((walk-keeps (name_of types t) fuel _ (add (name_of types t) visited) _ vs'
                          ss' h').0
                        (Has-update_self (name_of types t) _ visited vs))
                | inr more ↦
                    walk-stack u fuel (push types origin (children types t) stack)
                      (add (name_of types t) visited)
                      (visit types seed_origin preferred aliases (get_canonical_type t) origin s)
                      vs' ss' h' (In-push_items types u origin (children types t) stack more)
              ]
        ]

    -- Of a reached type that is visited, what it leads to is visited or on the stack, and it is
    -- recorded if it is a function pointer.
    abbrev pub Settled :
        List (QualType × Bytes) → List (QualType × Bytes) → Set → ManifestSummary → Type 0
    Settled first stack visited s =
        (t : QualType)
        → Reach types first t
        → Has (name_of types t) visited
        → (IsFunctionPointer types t → Has (name_of types t) s.callbacks)
          × ((c : QualType)
              → In types c (children types t)
              → Has (name_of types c) visited ⊎ In types c stack)

    Settled-old :
        (first stack : List (QualType × Bytes)) (t : QualType) (origin : Bytes) (visited : Set)
        (s : ManifestSummary)
        → Has (name_of types t) visited
        → Settled first ((t, origin) ∷ stack) visited s
        → Settled first stack visited s
    Settled-old first stack t origin visited s old settled u r h =
        let (recorded, spread) = settled u r h in
        (
          recorded,
          λ c i. elim (spread c i) [
            | inl done ↦ inl done
            | inr (inl e) ↦ inl (subst (λ w. Has (name_of types w) visited) e old)
            | inr (inr more) ↦ inr more
          ],
        )

    Settled-new :
        TextsDiffer
        → (first stack : List (QualType × Bytes)) (t : QualType) (origin : Bytes) (visited : Set)
          (s : ManifestSummary)
        → IsSorted visited
        → IsSorted s.callbacks
        → Settled first ((t, origin) ∷ stack) visited s
        → Settled first
            (push types origin (children types t) stack)
            (add (name_of types t) visited)
            (visit types seed_origin preferred aliases (get_canonical_type t) origin s)
    Settled-new differ first stack t origin visited s vs ss settled u r h =
        elim (Has-update_inv (name_of types t) (name_of types u) _ visited h) [
          | inl e ↦
              let same = differ t u (sym e) in
              (
                subst
                    (λ w.
                      is_function_pointer (shape w) ≡ true
                      → Has (get_type_string w)
                          (visit types seed_origin preferred aliases (get_canonical_type t) origin
                            s).callbacks)
                    same
                    (visit-Has_self types seed_origin preferred aliases (get_canonical_type t)
                      origin s ss),
                λ c i. inr (
                    In-push types c origin (children types t) stack
                      (subst (λ w. In types c (items types (shape w))) (sym same) i)),
              )
          | inr old ↦
              let (recorded, spread) = settled u r old in
              (
                λ fp.
                    visit-Has types seed_origin preferred aliases (get_canonical_type t) origin s
                      (name_of types u) ss (recorded fp),
                λ c i. elim (spread c i) [
                  | inl done ↦
                      inl (Has-update (name_of types t) (name_of types c) _ visited vs done)
                  | inr (inl e) ↦ inl (
                      subst (λ w. Has (name_of types w) (add (name_of types t) visited)) e
                        (Has-update_self (name_of types t) _ visited vs))
                  | inr (inr more) ↦
                      inr (In-push_items types c origin (children types t) stack more)
                ],
              )
        ]

    pub walk-Settled :
        TextsDiffer
        → (first : List (QualType × Bytes)) (fuel : ℕ) (stack : List (QualType × Bytes))
          (visited : Set) (s : ManifestSummary) {out : Set × ManifestSummary}
        → IsSorted visited
        → IsSorted s.callbacks
        → Settled first stack visited s
        → walk types seed_origin preferred aliases fuel stack visited s ≡ ok out
        → Settled first [] out.0 out.1
    unfolding walk
    walk-Settled differ first zero stack visited s vs ss settled h = cc
    walk-Settled differ first (suc fuel) [] visited s vs ss settled h =
        subst (λ (x : Set × ManifestSummary). Settled first [] x.0 x.1) (ok-injective h) settled
    walk-Settled differ first (suc fuel) ((t, origin) ∷ stack) visited s vs ss settled h =
        elim (Bool-cases (is_some (find (name_of types t) visited))) [
          | inl old ↦
              walk-Settled differ first fuel stack visited s vs ss
                (Settled-old first stack t origin visited s old settled)
                (sym
                    (walk-old types seed_origin preferred aliases fuel t origin stack visited s old)
                  ∙ h)
          | inr new ↦
              walk-Settled differ first fuel (push types origin (children types t) stack)
                (add (name_of types t) visited)
                (visit types seed_origin preferred aliases (get_canonical_type t) origin s)
                (update-IsSorted (name_of types t) _ visited vs)
                (visit-IsSorted types seed_origin preferred aliases (get_canonical_type t) origin s
                  ss)
                (Settled-new differ first stack t origin visited s vs ss settled)
                (sym
                    (walk-new types seed_origin preferred aliases fuel t origin stack visited s new)
                  ∙ h)
        ]

    -- All that is reached is visited in the end.
    pub Reach-visited :
        (first : List (QualType × Bytes)) (out : Set × ManifestSummary)
        → ((t : QualType) → In types t first → Has (name_of types t) out.0)
        → Settled first [] out.0 out.1
        → (t : QualType) → Reach types first t
        → Has (name_of types t) out.0
    Reach-visited first out seeds settled w (start t i) = seeds t i
    Reach-visited first out seeds settled w (child t u r i) =
        elim ((settled t r (Reach-visited first out seeds settled t r)).1 u
          ((items-LeadsTo types u (shape (get_canonical_type t))).1 i)) [
            | inl done ↦ done
            | inr none_left ↦ absurd none_left
          ]
