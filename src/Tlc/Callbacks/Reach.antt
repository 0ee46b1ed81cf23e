-- ===== src/Tlc/Callbacks/Reach.antt =====
-- The types that the walk of src/tools/TLC/Commands/Stat.cpp can meet, and membership in the stack
-- and in maps.
use lorelei.Base.{
  ℕ, suc, ◌+◌, ◌≡◌, ◌⊎◌, inl, inr, refl, subst, ◌↔◌, append-nil, true, false, List, [], ◌∷◌, ◌++◌,
  Option, Bytes, is_some, equal, equal_iff, length, Bool-cases, arith, sym,
}
use lorelei.Ordered.{Map, Set, find, update, add}
use lorelei.Ordered.Laws.{IsSorted, find-update, find-update_self, find-update_ne}
use lorelei.Tlc.Callbacks.{
  TypeSystem, Shape, function_pointer, no_proto_pointer, pointer, array_type, record_type,
  other_type, return_item, argument_items, field_items, items, push, walk, visit,
}
use lorelei.Tlc.Summary.{ManifestSummary}

-- The map has an entry under the key.
abbrev pub Has {ℓ} : {V : Type ℓ} → Bytes → Map V → Type 0
Has k m = is_some (find k m) ≡ true

module _ {ℓ} {V : Type ℓ} where
  pub Has-update_self :
      (k : Bytes) (f : Option V → V) (m : Map V) → IsSorted m → Has k (update k f m)
  unfolding is_some
  Has-update_self k f m s = rw (find-update_self k f m s) refl

  pub Has-update :
      (k j : Bytes) (f : Option V → V) (m : Map V) → IsSorted m → Has j m → Has j (update k f m)
  unfolding is_some
  Has-update k j f m s h = elim (Bool-cases (equal j k)) [
    | inl e ↦ rw (find-update k j f m s, e) refl
    | inr e ↦ rw (find-update_ne k j f m e) h
  ]

  pub Has-update_inv :
      (k j : Bytes) (f : Option V → V) (m : Map V) → Has j (update k f m) → (j ≡ k) ⊎ Has j m
  Has-update_inv k j f m h = elim (Bool-cases (equal j k)) [
    | inl e ↦ inl ((equal_iff j k).0 e)
    | inr e ↦ inr (rw (find-update_ne k j f m e) at h)
  ]

module _ (types : TypeSystem) where
  open types use {QualType, get_canonical_type, is_void_type, get_type_string, shape}

  abbrev pub In : QualType → List (QualType × Bytes) → Type 0
  In t [] = ⊥
  In t ((u, origin) ∷ more) = (u ≡ t) ⊎ In t more

  -- the text under which the walk knows the type
  abbrev pub name_of : QualType → Bytes
  name_of t = get_type_string (get_canonical_type t)

  -- what the type leads to: the result and the parameters of a function, the pointee, the element,
  -- the fields
  abbrev pub children : QualType → List (QualType × Bytes)
  children t = items types (shape (get_canonical_type t))

  abbrev pub Listed : QualType → List QualType → Type 0
  Listed t [] = ⊥
  Listed t (u ∷ more) = (u ≡ t) ⊎ Listed t more

  abbrev pub IsField : QualType → List (Bytes × QualType) → Type 0
  IsField t [] = ⊥
  IsField t ((name, u) ∷ fields) = (u ≡ t) ⊎ IsField t fields

  abbrev pub IsResult : QualType → QualType → Type 0
  IsResult t r = (is_void_type r ≡ false) × (r ≡ t)

  -- A function leads to its result, unless that is void, and to its parameters, a pointer to its
  -- pointee, an array to its element, and a record to the types of its fields.
  abbrev pub LeadsTo : Shape QualType → QualType → Type 0
  LeadsTo (function_pointer r params) t = IsResult t r ⊎ Listed t params
  LeadsTo (no_proto_pointer r) t = IsResult t r
  LeadsTo (pointer u) t = u ≡ t
  LeadsTo (array_type u) t = u ≡ t
  LeadsTo (record_type fields) t = IsField t fields
  LeadsTo other_type t = ⊥

  argument_items-Listed :
      (t : QualType) (i : ℕ) (params : List QualType)
      → In t (argument_items types i params) ↔ Listed t params
  unfolding argument_items
  argument_items-Listed t i [] = (λ h. h, λ h. h)
  argument_items-Listed t i (p ∷ params) =
      let rest = argument_items-Listed t (i + 1) params in
      (
        λ h. elim h [ inl e ↦ inl e | inr more ↦ inr (rest.0 more) ],
        λ h. elim h [ inl e ↦ inl e | inr more ↦ inr (rest.1 more) ],
      )

  field_items-IsField :
      (t : QualType) (fields : List (Bytes × QualType))
      → In t (field_items types fields) ↔ IsField t fields
  unfolding field_items
  field_items-IsField t [] = (λ h. h, λ h. h)
  field_items-IsField t ((name, u) ∷ fields) =
      let rest = field_items-IsField t fields in
      (
        λ h. elim h [ inl e ↦ inl e | inr more ↦ inr (rest.0 more) ],
        λ h. elim h [ inl e ↦ inl e | inr more ↦ inr (rest.1 more) ],
      )

  In-return_item :
      (t r : QualType) (more : List (QualType × Bytes))
      → In t (return_item types r ++ more) ↔ (IsResult t r ⊎ In t more)
  In-return_item t r more = elim (Bool-cases (is_void_type r)) [
    | inl void ↦
        rw void (λ h. inr h, λ h. elim h [ inl (not_void, e) ↦ absurd (cc) | inr later ↦ later ])
    | inr not_void ↦ rw not_void (
      λ h. elim h [ inl e ↦ inl (refl, e) | inr later ↦ inr later ],
      λ h. elim h [ inl (_, e) ↦ inl e | inr later ↦ inr later ],
    )
  ]

  pub items-LeadsTo : (t : QualType) (s : Shape QualType) → In t (items types s) ↔ LeadsTo s t
  unfolding items
  items-LeadsTo t (function_pointer r params) =
      let result = In-return_item t r (argument_items types 0 params) in
      let rest = argument_items-Listed t 0 params in
      (
        λ h. elim (result.0 h) [ inl e ↦ inl e | inr more ↦ inr (rest.0 more) ],
        λ h. result.1 (elim h [ inl e ↦ inl e | inr more ↦ inr (rest.1 more) ]),
      )
  items-LeadsTo t (no_proto_pointer r) =
      let result = In-return_item t r [] in
      (
        λ h. elim (result.0 (subst (In t) (sym (append-nil (return_item types r))) h)) [
          | inl e ↦ e
          | inr none_left ↦ absurd none_left
        ],
        λ h. subst (In t) (append-nil (return_item types r)) (result.1 (inl h)),
      )
  items-LeadsTo t (pointer u) =
      (λ h. elim h [ inl e ↦ e | inr none_left ↦ absurd none_left ], λ e. inl e)
  items-LeadsTo t (array_type u) =
      (λ h. elim h [ inl e ↦ e | inr none_left ↦ absurd none_left ], λ e. inl e)
  items-LeadsTo t (record_type fields) = field_items-IsField t fields
  items-LeadsTo t other_type = (λ h. h, λ h. h)

  -- The type is among the first ones, or some type leads to it that is reached.
  pub data Reach (first : List (QualType × Bytes)) : QualType → Type 0 where
    start : (t : QualType) → In t first → Reach first t
    child :
        (t u : QualType) → Reach first t → LeadsTo (shape (get_canonical_type t)) u → Reach first u

  pub child_item :
      {first : List (QualType × Bytes)} (t u : QualType)
      → Reach first t
      → In u (children t)
      → Reach first u
  child_item t u r i = child t u r ((items-LeadsTo u (shape (get_canonical_type t))).0 i)

  pub In-push_items :
      (t : QualType) (origin : Bytes) (new stack : List (QualType × Bytes))
      → In t stack
      → In t (push types origin new stack)
  unfolding push
  In-push_items t origin [] stack h = h
  In-push_items t origin ((u, suffix) ∷ new) stack h =
      In-push_items t origin new ((u, origin ++ suffix) ∷ stack) (inr h)

  pub In-push :
      (t : QualType) (origin : Bytes) (new stack : List (QualType × Bytes))
      → In t new
      → In t (push types origin new stack)
  unfolding push
  In-push t origin [] stack h = absurd h
  In-push t origin ((u, suffix) ∷ new) stack (inl e) =
      In-push_items t origin new ((u, origin ++ suffix) ∷ stack) (inl e)
  In-push t origin ((u, suffix) ∷ new) stack (inr h) =
      In-push t origin new ((u, origin ++ suffix) ∷ stack) h

  pub push_inv :
      (t : QualType) (origin : Bytes) (new stack : List (QualType × Bytes))
      → In t (push types origin new stack)
      → In t new ⊎ In t stack
  unfolding push
  push_inv t origin [] stack h = inr h
  push_inv t origin ((u, suffix) ∷ new) stack h =
      elim (push_inv t origin new ((u, origin ++ suffix) ∷ stack) h) [
        | inl new_one ↦ inl (inr new_one)
        | inr (inl e) ↦ inl (inl e)
        | inr (inr old) ↦ inr old
      ]

  pub length-push :
      (origin : Bytes) (new stack : List (QualType × Bytes))
      → length (push types origin new stack) ≡ length new + length stack
  unfolding push
  length-push origin [] stack = omega arith
  length-push origin ((u, suffix) ∷ new) stack =
      omega (arith, length-push origin new ((u, origin ++ suffix) ∷ stack))

  module _ (seed_origin preferred : Bytes) (aliases : Map Bytes) where
    -- One round of the walk, at a text that was visited and at one that was not.
    pub walk-old :
        (fuel : ℕ) (t : QualType) (origin : Bytes) (stack : List (QualType × Bytes)) (visited : Set)
        (summary : ManifestSummary)
        → is_some (find (name_of t) visited) ≡ true
        → walk types seed_origin preferred aliases (suc fuel) ((t, origin) ∷ stack) visited summary
          ≡ walk types seed_origin preferred aliases fuel stack visited summary
    unfolding walk
    walk-old fuel t origin stack visited summary h = rw (walk, h) refl

    pub walk-new :
        (fuel : ℕ) (t : QualType) (origin : Bytes) (stack : List (QualType × Bytes)) (visited : Set)
        (summary : ManifestSummary)
        → is_some (find (name_of t) visited) ≡ false
        → walk types seed_origin preferred aliases (suc fuel) ((t, origin) ∷ stack) visited summary
          ≡ walk types seed_origin preferred aliases fuel
              (push types origin (children t) stack)
              (add (name_of t) visited)
              (visit types seed_origin preferred aliases (get_canonical_type t) origin summary)
    unfolding walk
    walk-new fuel t origin stack visited summary h = rw (walk, h) refl
