-- ===== src/Tlc/Callbacks/Complete.antt =====
-- The walk of src/tools/TLC/Commands/Stat.cpp records the function pointers that are reached, all
-- of them and nothing else.
use lorelei.Base.{◌≡◌, ◌⊎◌, Bool, List, Bytes}
use lorelei.Ordered.{Map}
use lorelei.Tlc.Summary.{ManifestSummary}
use lorelei.Tlc.Callbacks.{TypeSystem}
use lorelei.Tlc.Callbacks.Reach.{Has, name_of, Reach}
use lorelei.Tlc.Callbacks.Sound.{IsFunctionPointer}
use lorelei.Tlc.Callbacks.{seed_stack}

module _ (types : TypeSystem) where
  open types use {QualType}

  -- what is recorded, and what is to be recorded
  abbrev pub Recorded : List (QualType × Bytes) → ManifestSummary → Bytes → Type 0
  Recorded first summary k =
      Has k summary.callbacks
      ⊎ ((t : QualType) × Reach types first t × IsFunctionPointer types t × (name_of types t ≡ k))

  module _ (aliases : Map Bytes) (seed : QualType) (origin preferred : Bytes)
      (include_seed : Bool) where
    abbrev pub first_types : List (QualType × Bytes)
    first_types = seed_stack types seed origin include_seed
