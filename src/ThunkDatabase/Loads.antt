-- ===== src/ThunkDatabase/Loads.antt =====
-- `loadJsonDatabase`, `load` and `loadPack` of src/libs/DLCall/ThunkDatabase.cpp: they return, and
-- a pack displaces nothing.
use lorelei.Base.{
  ◌≡◌, refl, ap, ◌∙◌, sym, true, false, Option, some, Bytes, codes, ok, Gives, Gives-ok,
  ok-injective,
}
use lorelei.Index.{lookup}
use lorelei.ThunkDatabase.{
  ThunkDatabase, CForwardThunkInfo, CReversedThunkInfo, empty, rebuild_indexes, lookup_entry,
  forward_thunk, reversed_thunk, forward_names, reversed_names,
}
use lorelei.ThunkDatabase.Json.{JsonLibrary, Vars, assign_var, load_json_database, load, load_pack}
use lorelei.ThunkDatabase.Entries.{Grows, IsIndexed}
use lorelei.ThunkDatabase.Names.{find_entry, lookup_entry-index_entries, find_entry-append}
use lorelei.ThunkDatabase.Layers.{load_json-Layered}

-- The maps are those that `rebuildIndexes` makes.
abbrev pub IsRebuilt : ThunkDatabase → Type 0
IsRebuilt db =
    (k : Bytes)
    → (forward_thunk db k ≡ ok (find_entry forward_names db.forward_thunks k))
      × (reversed_thunk db k ≡ ok (find_entry reversed_names db.reversed_thunks k))

pub rebuild_indexes-IsRebuilt : (db : ThunkDatabase) → IsRebuilt (rebuild_indexes db)
unfolding rebuild_indexes forward_thunk reversed_thunk
rebuild_indexes-IsRebuilt db k = (
  lookup_entry-index_entries forward_names db.forward_thunks k,
  lookup_entry-index_entries reversed_names db.reversed_thunks k,
)

-- What a loaded database has: both lookups give the first entry that has the name as its name or as
-- an alias, and the index of the names leads to entries of the names.
pub record IsLoaded (db : ThunkDatabase) : Type 0 where
  pub rebuilt : IsRebuilt db
  pub indexed : IsIndexed db

pub rebuild_indexes-IsLoaded : (db : ThunkDatabase) → IsIndexed db → IsLoaded (rebuild_indexes db)
unfolding rebuild_indexes
rebuild_indexes-IsLoaded db v = record { rebuilt = rebuild_indexes-IsRebuilt db; indexed = v }

-- A lookup after the entries grew, where the maps are rebuilt.
forward_thunk-grown :
    (db d : ThunkDatabase) (k : Bytes) (x : CForwardThunkInfo)
    → IsRebuilt db
    → Grows db.forward_thunks d.forward_thunks
    → forward_thunk db k ≡ ok (some x)
    → forward_thunk (rebuild_indexes d) k ≡ ok (some x)
unfolding rebuild_indexes
forward_thunk-grown db d k x b (more, g) h =
    let found : find_entry forward_names db.forward_thunks k ≡ some x =
      ok-injective (sym (b k).0 ∙ h) in
    (rebuild_indexes-IsRebuilt d k).0
    ∙ ap ok (
        ap (λ l. find_entry forward_names l k) g
        ∙ find_entry-append forward_names db.forward_thunks more k x found)

reversed_thunk-grown :
    (db d : ThunkDatabase) (k : Bytes) (x : CReversedThunkInfo)
    → IsRebuilt db
    → Grows db.reversed_thunks d.reversed_thunks
    → reversed_thunk db k ≡ ok (some x)
    → reversed_thunk (rebuild_indexes d) k ≡ ok (some x)
unfolding rebuild_indexes
reversed_thunk-grown db d k x b (more, g) h =
    let found : find_entry reversed_names db.reversed_thunks k ≡ some x =
      ok-injective (sym (b k).1 ∙ h) in
    (rebuild_indexes-IsRebuilt d k).1
    ∙ ap ok (
        ap (λ l. find_entry reversed_names l k) g
        ∙ find_entry-append reversed_names db.reversed_thunks more k x found)

-- load returns, whatever the file holds and whatever was in the database, and leaves a loaded
-- database: both lookups give the first entry with the name or the alias.
pub load-IsLoaded :
    (lib : JsonLibrary) (open_file : Bytes → Option Bytes) (path : Bytes) (vars : Vars)
    (db : ThunkDatabase)
    → Gives (load lib open_file path vars db) (λ r. IsLoaded r.1)
unfolding load lookup
load-IsLoaded lib open_file path vars db =
    let (r, e, l) =
      Gives-ok _ (load_json_database lib open_file path vars true empty)
        (load_json-Layered lib open_file path vars true empty (λ k i h. cc)) in
    rw (e, load) (rebuild_indexes-IsLoaded r.1 l.valid)

-- Every name or alias that led to an entry leads to the same entry.
pub load_pack-lookup :
    (lib : JsonLibrary) (open_file : Bytes → Option Bytes) (path guest_dir host_dir : Bytes)
    (vars : Vars) (db : ThunkDatabase)
    → IsLoaded db
    → Gives (load_pack lib open_file path guest_dir host_dir vars db) (λ r.
      IsLoaded r.1
      × ((k : Bytes) (x : CForwardThunkInfo)
          → forward_thunk db k ≡ ok (some x)
          → forward_thunk r.1 k ≡ ok (some x))
      × ((k : Bytes) (x : CReversedThunkInfo)
          → reversed_thunk db k ≡ ok (some x)
          → reversed_thunk r.1 k ≡ ok (some x)))
unfolding load_pack
load_pack-lookup lib open_file path guest_dir host_dir vars db l =
    let pack_vars =
      assign_var (assign_var vars (codes "GTL_DIR") guest_dir) (codes "HTL_DIR") host_dir in
    let (r, e, y) =
      Gives-ok _ (load_json_database lib open_file path pack_vars false db)
        (load_json-Layered lib open_file path pack_vars false db l.indexed) in
    rw (e, load_pack)
      (
        rebuild_indexes-IsLoaded r.1 y.valid,
        λ k x. forward_thunk-grown db r.1 k x l.rebuilt (y.forward_grows refl),
        λ k x. reversed_thunk-grown db r.1 k x l.rebuilt y.reversed_grows,
      )

pub empty-IsLoaded : IsLoaded empty
unfolding forward_thunk reversed_thunk lookup_entry lookup find_entry
empty-IsLoaded = record { rebuilt = λ k. (refl, refl); indexed = λ k i h. cc }

-- From a loaded database, loadPack returns, whatever the file holds, and a name or an alias that
-- led to a forward entry leads to the same entry afterwards.
pub load_pack-forward_thunk :
    (lib : JsonLibrary) (open_file : Bytes → Option Bytes) (path guest_dir host_dir : Bytes)
    (vars : Vars) (db : ThunkDatabase) (k : Bytes) (x : CForwardThunkInfo)
    → IsLoaded db
    → forward_thunk db k ≡ ok (some x)
    → Gives
        (load_pack lib open_file path guest_dir host_dir vars db)
        (λ r. IsLoaded r.1 × (forward_thunk r.1 k ≡ ok (some x)))
load_pack-forward_thunk lib open_file path guest_dir host_dir vars db k x l h =
    let (r, run, kept) =
      Gives-ok _ (load_pack lib open_file path guest_dir host_dir vars db)
        (load_pack-lookup lib open_file path guest_dir host_dir vars db l) in
    rw run (kept.0, kept.1 k x h)
