-- ===== src/Tlc/Callbacks/Config/Same.antt =====
-- What the walks from the names of a section (src/tools/TLC/Commands/Stat.cpp) leave alone: the
-- functions of the summary.
use lorelei.Base.{
  ℕ, zero, suc, ◌+◌, ◌*◌, ◌≤◌, ◌<◌, ◌≡◌, inl, inr, refl, ◌∙◌, sym, subst, Bool, true, false, List,
  [], ◌∷◌, ◌++◌, none, some, Bytes, codes, is_some, length, Bool-cases, Option-cases, arith, ok,
  ◌>>=◌, Ends-ok, Gives, ok-injective,
}
use lorelei.Ordered.{Map, Set, find, add}
use lorelei.Tlc.Summary.{ManifestSummary, add_callback_signature}
use lorelei.Tlc.Callbacks.{
  TypeSystem, is_function_pointer, push, walk, visit, seed_stack, collect_callback_signatures,
}
use lorelei.Tlc.Callbacks.Reach.{name_of, children, start, length-push, walk-old, walk-new}
use lorelei.Tlc.Callbacks.Ends.{Among, Bounded, walk-Ends, fresh-bound}
use lorelei.Tlc.Callbacks.Config.{Matches, collect, collect_overlay, config_origin}

module _ (types : TypeSystem) where
  open types use {QualType, get_canonical_type, get_type_string, shape}

  -- The types of the translation unit have the names, and none leads to more types than the width.
  pub record Finite (names : List Bytes) (width : ℕ) : Type 0 where
    pub named : (t : QualType) → Among (name_of types t) names
    pub wide : (t : QualType) → length (children types t) ≤ width

  -- What a walk leaves alone.
  pub record SameFunctions (s s' : ManifestSummary) : Type 0 where
    pub functions : s'.functions ≡ s.functions
    pub missing : s'.missing_functions ≡ s.missing_functions

  visit-SameFunctions :
      (origin preferred : Bytes) (aliases : Map Bytes) (t : QualType) (o : Bytes)
      (s : ManifestSummary)
      → SameFunctions s (visit types origin preferred aliases t o s)
  unfolding visit add_callback_signature
  visit-SameFunctions origin preferred aliases t o s =
      elim (Bool-cases (is_function_pointer (shape t))) [
        | inl e ↦ record { functions = rw (visit, e) refl; missing = rw (visit, e) refl }
        | inr e ↦ record { functions = rw (visit, e) refl; missing = rw (visit, e) refl }
      ]

  walk-SameFunctions :
      (origin preferred : Bytes) (aliases : Map Bytes) (fuel : ℕ) (stack : List (QualType × Bytes))
      (visited : Set) (s : ManifestSummary) {out : Set × ManifestSummary}
      → walk types origin preferred aliases fuel stack visited s ≡ ok out
      → SameFunctions s out.1
  unfolding walk
  walk-SameFunctions origin preferred aliases zero stack visited s h = cc
  walk-SameFunctions origin preferred aliases (suc fuel) [] visited s {out = out} h =
      subst (λ (x : Set × ManifestSummary). SameFunctions s x.1) (ok-injective h)
        (record { functions = refl; missing = refl })
  walk-SameFunctions origin preferred aliases (suc fuel) ((t, o) ∷ stack) visited s h =
      elim (Bool-cases (is_some (find (name_of types t) visited))) [
        | inl old ↦
            walk-SameFunctions origin preferred aliases fuel stack visited s
              (sym (walk-old types origin preferred aliases fuel t o stack visited s old) ∙ h)
        | inr new ↦
            let first = visit-SameFunctions origin preferred aliases (get_canonical_type t) o s in
            let later =
              walk-SameFunctions origin preferred aliases fuel
                (push types o (children types t) stack) (add (name_of types t) visited)
                (visit types origin preferred aliases (get_canonical_type t) o s)
                (sym (walk-new types origin preferred aliases fuel t o stack visited s new) ∙ h) in
            record {
              functions = later.functions ∙ first.functions;
              missing = later.missing ∙ first.missing;
            }
      ]

  length-seed_stack :
      (names : List Bytes) (width : ℕ) (seed : QualType) (origin : Bytes) (include_seed : Bool)
      → Finite names width
      → length (seed_stack types seed origin include_seed) ≤ suc width
  unfolding seed_stack
  length-seed_stack names width seed origin true f = omega arith
  length-seed_stack names width seed origin false f =
      elim (Bool-cases (is_function_pointer (shape (get_canonical_type seed)))) [
        | inl e ↦
            rw (seed_stack, e)
              (omega (arith, length-push types origin (children types seed) [], f.wide seed))
        | inr e ↦ rw (seed_stack, e) (omega arith)
      ]

  module _ (unit : Matches types) (fuel : ℕ) (names : List Bytes) (width : ℕ)
      (f : Finite names width) (enough : length names * suc width + suc width < fuel) where
    pub collect-SameFunctions :
        (seed : QualType) (origin preferred : Bytes) (include_seed : Bool) (s : ManifestSummary)
        → Gives (collect types unit fuel seed origin preferred include_seed s) (SameFunctions s)
    unfolding collect collect_callback_signatures
    collect-SameFunctions seed origin preferred include_seed s =
        let first = seed_stack types seed origin include_seed in
        let b : Bounded types first names width = record {
          named = λ t r. f.named t;
          wide = λ t r. f.wide t;
        } in
        let (out, h) = Ends-ok (walk types origin preferred unit.aliases fuel first [] s) (
          walk-Ends types first names width origin preferred unit.aliases b fuel first [] s tt
            (λ t i. start t i)
            (omega (
              arith,
              fresh-bound names [] width (suc width) fuel enough,
              length-seed_stack names width seed origin include_seed f,
            ))) in
        rw (h, ◌>>=◌) (walk-SameFunctions origin preferred unit.aliases fuel first [] s h)

    pub collect_overlay-SameFunctions :
        (section name : Bytes) (s : ManifestSummary)
        → Gives (collect_overlay types unit fuel section name s) (SameFunctions s)
    unfolding collect_overlay
    collect_overlay-SameFunctions section name s =
        let same : SameFunctions s s = record { functions = refl; missing = refl } in
        elim (Option-cases (find name unit.overlays)) [
          | inl e ↦ rw (collect_overlay, e) same
          | inr (none, e) ↦ rw (collect_overlay, e) same
          | inr (some type, e) ↦
              rw (collect_overlay, e)
                (collect-SameFunctions type
                  (config_origin types unit fuel section name ++ codes "@overlay") [] false s)
        ]
