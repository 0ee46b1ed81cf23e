-- ===== src/Tlc/Callbacks/Sound.antt =====
-- The walk of src/tools/TLC/Commands/Stat.cpp records function pointers that are reached only.
use lorelei.Base.{
  ℕ, zero, suc, ◌≡◌, ◌⊎◌, inl, inr, refl, ◌∙◌, ap, true, List, [], ◌∷◌, Bytes, is_some, Bool-cases,
  sym, ok, subst, ok-injective,
}
use lorelei.Ordered.{Map, Set, find, add}
use lorelei.Ordered.Laws.{IsSorted, update-IsSorted}
use lorelei.Tlc.Summary.{ManifestSummary, add_callback_signature}
use lorelei.Tlc.Callbacks.{TypeSystem, is_function_pointer, push, walk, visit}
use lorelei.Tlc.Callbacks.Reach.{
  Has, Has-update, Has-update_self, Has-update_inv, In, name_of, children, Reach, child_item,
  push_inv, walk-old, walk-new,
}

module _ (types : TypeSystem) where
  open types use {QualType, get_canonical_type, get_type_string, shape}

  abbrev pub IsFunctionPointer : QualType → Type 0
  IsFunctionPointer t = is_function_pointer (shape (get_canonical_type t)) ≡ true

  module _ (seed_origin preferred : Bytes) (aliases : Map Bytes) where
    pub visit-IsSorted :
        (t : QualType) (origin : Bytes) (s : ManifestSummary)
        → IsSorted s.callbacks
        → IsSorted (visit types seed_origin preferred aliases t origin s).callbacks
    unfolding visit add_callback_signature
    visit-IsSorted t origin s h = elim (Bool-cases (is_function_pointer (shape t))) [
      | inl e ↦ rw (visit, e) (update-IsSorted (get_type_string t) _ s.callbacks h)
      | inr e ↦ rw (visit, e) h
    ]

    pub visit-Has :
        (t : QualType) (origin : Bytes) (s : ManifestSummary) (k : Bytes)
        → IsSorted s.callbacks
        → Has k s.callbacks
        → Has k (visit types seed_origin preferred aliases t origin s).callbacks
    unfolding visit add_callback_signature
    visit-Has t origin s k sorted h = elim (Bool-cases (is_function_pointer (shape t))) [
      | inl e ↦ rw (visit, e) (Has-update (get_type_string t) k _ s.callbacks sorted h)
      | inr e ↦ rw (visit, e) h
    ]

    pub visit-Has_self :
        (t : QualType) (origin : Bytes) (s : ManifestSummary)
        → IsSorted s.callbacks
        → is_function_pointer (shape t) ≡ true
        → Has (get_type_string t) (visit types seed_origin preferred aliases t origin s).callbacks
    unfolding visit add_callback_signature
    visit-Has_self t origin s sorted e =
        rw (visit, e) (Has-update_self (get_type_string t) _ s.callbacks sorted)

    visit-Has_inv :
        (t : QualType) (origin : Bytes) (s : ManifestSummary) (k : Bytes)
        → Has k (visit types seed_origin preferred aliases t origin s).callbacks
        → ((k ≡ get_type_string t) × (is_function_pointer (shape t) ≡ true)) ⊎ Has k s.callbacks
    unfolding visit add_callback_signature
    visit-Has_inv t origin s k h = elim (Bool-cases (is_function_pointer (shape t))) [
      | inl e ↦ elim (Has-update_inv (get_type_string t) k _ s.callbacks (rw (visit, e) at h)) [
        | inl same ↦ inl (same, e)
        | inr old ↦ inr old
      ]
      | inr e ↦ inr (rw (visit, e) at h)
    ]

    -- The walk records no other key than what is there and the function pointers that it meets.
    pub walk_sound :
        (first : List (QualType × Bytes)) (k : Bytes) (fuel : ℕ) (stack : List (QualType × Bytes))
        (visited : Set) (s : ManifestSummary) {out : Set × ManifestSummary}
        → ((t : QualType) → In types t stack → Reach types first t)
        → walk types seed_origin preferred aliases fuel stack visited s ≡ ok out
        → Has k out.1.callbacks
        → Has k s.callbacks
          ⊎ ((t : QualType) × Reach types first t × IsFunctionPointer t × (name_of types t ≡ k))
    unfolding walk
    walk_sound first k zero stack visited s r h got = cc
    walk_sound first k (suc fuel) [] visited s {out = out} r h got =
        let same : s ≡ out.1 = ap (λ p. p.1) (ok-injective h) in
        inl (subst (λ (x : ManifestSummary). Has k x.callbacks) (sym same) got)
    walk_sound first k (suc fuel) ((t, origin) ∷ stack) visited s r h got =
        elim (Bool-cases (is_some (find (name_of types t) visited))) [
          | inl old ↦
              walk_sound first k fuel stack visited s (λ u i. r u (inr i))
                (sym
                    (walk-old types seed_origin preferred aliases fuel t origin stack visited s old)
                  ∙ h)
                got
          | inr new ↦
              let reached = r t (inl refl) in
              elim (walk_sound first k fuel (push types origin (children types t) stack)
                (add (name_of types t) visited)
                (visit types seed_origin preferred aliases (get_canonical_type t) origin s)
                (λ u i. elim (push_inv types u origin (children types t) stack i) [
                  | inl new_one ↦ child_item types t u reached new_one
                  | inr old_one ↦ r u (inr old_one)
                ])
                (sym
                    (walk-new types seed_origin preferred aliases fuel t origin stack visited s new)
                  ∙ h)
                got) [
                  | inl here ↦ elim (visit-Has_inv (get_canonical_type t) origin s k here) [
                    | inl (e, fp) ↦ inr (t, reached, fp, sym e)
                    | inr before ↦ inl before
                  ]
                  | inr later ↦ inr later
                ]
        ]
