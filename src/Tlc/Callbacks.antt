-- ===== src/Tlc/Callbacks.antt =====
-- `collectCallbackSignatures` of src/tools/TLC/Commands/Stat.cpp: the types that a type leads to are
-- walked from a stack, and each function pointer among them is recorded as a callback. The types
-- of Clang are a parameter.
pub mod Reach
pub mod Ends
pub mod Sound
pub mod Settled
pub mod Complete
pub mod Config
use lorelei.Base.{
  ℕ, zero, suc, ◌+◌, Bool, true, false, not, ◌&&◌, List, [], ◌∷◌, ◌++◌, map, Option, none, some,
  Bytes, codes, is_nil, is_some, equal, to_string, if◌then◌else◌, Run, ok, starved,
}
use lorelei.Ordered.{Map, Set, find, add}
use lorelei.Tlc.Summary.{ManifestSummary, add_callback_signature, text_or}

-- What a canonical type is made of. A function pointer has its pointee as a prototype, or as a
-- function without one.
pub data Shape (T : Type 0) : Type 0 where
  function_pointer : T → List T → Shape T
  no_proto_pointer : T → Shape T
  pointer : T → Shape T
  array_type : T → Shape T
  record_type : List (Bytes × T) → Shape T
  other_type : Shape T

abbrev pub is_function_pointer : {T : Type 0} → Shape T → Bool
is_function_pointer (function_pointer r params) = true
is_function_pointer (no_proto_pointer r) = true
is_function_pointer _ = false

-- `clang::QualType` with `getCanonicalType`, `isVoidType`, and `getTypeString`
pub record TypeSystem : Type 1 where
  pub QualType : Type 0
  pub get_canonical_type : QualType → QualType
  pub is_void_type : QualType → Bool
  pub get_type_string : QualType → Bytes
  pub shape : QualType → Shape QualType

module _ (types : TypeSystem) where
  open types use {QualType, get_canonical_type, is_void_type, get_type_string, shape}

  abbrev pub return_item : QualType → List (QualType × Bytes)
  return_item r = if not (is_void_type r) then (r, codes "@ret") ∷ [] else []

  -- the parameters from the position on
  unfoldable pub argument_items : ℕ → List QualType → List (QualType × Bytes)
  argument_items i [] = []
  argument_items i (p ∷ ps) = (p, codes "@arg" ++ to_string (i + 1)) ∷ argument_items (i + 1) ps

  unfoldable pub field_items : List (Bytes × QualType) → List (QualType × Bytes)
  field_items [] = []
  field_items ((name, t) ∷ fields) = (t, b'@' ∷ name) ∷ field_items fields

  -- What a type puts on the stack, in order, with what is added to the origin.
  unfoldable pub items : Shape QualType → List (QualType × Bytes)
  unfolding argument_items field_items
  items (function_pointer r params) = return_item r ++ argument_items 0 params
  items (no_proto_pointer r) = return_item r
  items (pointer t) = (t, codes "@ptr") ∷ []
  items (array_type t) = (t, codes "@array") ∷ []
  items (record_type fields) = field_items fields
  items other_type = []

  -- a type with its origin
  abbrev pub Stack : Type 0
  Stack = List (QualType × Bytes)

  -- `emplace_back` of each; the back of the stack is the head of the list
  unfoldable pub push : Bytes → List (QualType × Bytes) → Stack → Stack
  push origin [] stack = stack
  push origin ((t, suffix) ∷ more) stack = push origin more ((t, origin ++ suffix) ∷ stack)

  -- the stack before the loop
  unfoldable pub seed_stack : QualType → Bytes → Bool → Stack
  unfolding push items
  seed_stack seed origin include_seed =
      let type = get_canonical_type seed in
      if include_seed
      then (seed, origin) ∷ []
      else if is_function_pointer (shape type)
      then push origin (items (shape type)) []
      else (type, origin) ∷ []

  module _ (seed_origin preferred : Bytes) (aliases : Map Bytes) where
    abbrev pub alias_of : Bytes → Bytes → Bytes
    alias_of type_string origin =
        if not (is_nil preferred) && equal origin seed_origin
        then preferred
        else text_or (find type_string aliases) []

    -- what is recorded of the type
    unfoldable pub visit : QualType → Bytes → ManifestSummary → ManifestSummary
    unfolding add_callback_signature
    visit type origin summary =
        if is_function_pointer (shape type)
        then add_callback_signature (get_type_string type) origin
            (alias_of (get_type_string type) origin) summary
        else summary

    -- the loop, with what was visited
    unfoldable pub walk : ℕ → Stack → Set → ManifestSummary → Run (Set × ManifestSummary)
    unfolding push items visit
    walk zero stack visited summary = starved
    walk (suc fuel) [] visited summary = ok (visited, summary)
    walk (suc fuel) ((t, origin) ∷ stack) visited summary =
        let type = get_canonical_type t in
        let type_str = get_type_string type in
        elim (is_some (find type_str visited)) [
          | true ↦ walk fuel stack visited summary
          | false ↦
              walk fuel (push origin (items (shape type)) stack) (add type_str visited)
                (visit type origin summary)
        ]

  unfoldable pub collect_callback_signatures :
      Map Bytes
      → ℕ
      → QualType
      → Bytes
      → Bytes
      → Bool
      → ManifestSummary
      → Run (Set × ManifestSummary)
  unfolding walk seed_stack
  collect_callback_signatures aliases fuel seed origin preferred include_seed summary =
      walk origin preferred aliases fuel (seed_stack seed origin include_seed) [] summary
