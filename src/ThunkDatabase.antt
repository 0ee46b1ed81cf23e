-- ===== src/ThunkDatabase.antt =====
-- `ThunkDatabase` of src/libs/DLCall/ThunkDatabase.cpp and include/lorelei/DLCall/ThunkDatabase.h:
-- the thunk descriptions read from JSON, the upsert by name, and the index over names and aliases.
-- A pointer into the arenas is the text up to its first NUL; a list with its count is a list.
pub mod Entries
pub mod Names
pub mod Json
pub mod Layers
pub mod Loads
pub mod Tests
use lorelei.Base.{
  ℕ, zero, suc, Bool, true, false, not, ◌&&◌, List, [], ◌∷◌, ◌++◌, map, Option, none, some, Bytes,
  codes, is_nil, is_some, length, set, equal, if◌then◌else◌, Run, ok, ◌>>=◌, get_or,
}
use lorelei.Config.Section.{c_str}
use lorelei.Index.{Index, lookup, emplace, at}
use lorelei.Str.Varexp.{varexp}

pub record CForwardThunkInfo : Type 0 where
  pub name : Bytes
  pub alias : List Bytes
  pub guest_thunk : Bytes
  pub host_thunk : Bytes
  pub host_library : Bytes

pub record CReversedThunkInfo : Type 0 where
  pub name : Bytes
  pub alias : List Bytes
  pub file_name : Bytes
  pub thunks : List Bytes

pub record ThunkDatabase : Type 0 where
  pub forward_thunks : List CForwardThunkInfo
  pub reversed_thunks : List CReversedThunkInfo
  pub forward_thunk_map : Index
  pub reversed_thunk_map : Index
  pub forward_index : Index

abbrev pub empty : ThunkDatabase
empty = record {
  forward_thunks = [];
  reversed_thunks = [];
  forward_thunk_map = [];
  reversed_thunk_map = [];
  forward_index = [];
}

abbrev pub intern : Bytes → Bytes
intern = c_str

abbrev pub intern_list : List Bytes → List Bytes
intern_list strs = map intern strs

abbrev pub new_forward : Bytes → List Bytes → Bytes → Bytes → Bytes → CForwardThunkInfo
new_forward name alias guest_thunk host_thunk host_library = record {
  name = intern name;
  alias = intern_list alias;
  guest_thunk = intern guest_thunk;
  host_thunk = intern host_thunk;
  host_library = intern host_library;
}

-- `upsertForward`
unfoldable pub upsert_forward :
    ThunkDatabase → Bytes → List Bytes → Bytes → Bytes → Bytes → Bool → Run ThunkDatabase
unfolding emplace
upsert_forward db name alias guest_thunk host_thunk host_library overwrite =
    let info = new_forward name alias guest_thunk host_thunk host_library in
    elim (lookup name db.forward_index) [
      | some i ↦
          if overwrite
          then (at db.forward_thunks i >>= λ old.
              ok (record db { forward_thunks = set db.forward_thunks i info }))
          else ok db
      | none ↦ ok (record db {
        forward_index = emplace name (length db.forward_thunks) db.forward_index;
        forward_thunks = db.forward_thunks ++ info ∷ [];
      })
    ]

-- `indexEntries` of `rebuildIndexes`: the name and the aliases of each entry.
unfoldable pub index_names : List Bytes → ℕ → Index → Index
index_names [] i m = m
index_names (k ∷ ks) i m = index_names ks i (emplace k i m)

unfoldable pub index_entries {ℓ} : {A : Type ℓ} → (A → List Bytes) → List A → ℕ → Index → Index
unfolding index_names
index_entries names [] i m = m
index_entries names (x ∷ xs) i m = index_entries names xs (suc i) (index_names (names x) i m)

abbrev pub forward_names : CForwardThunkInfo → List Bytes
forward_names info = info.name ∷ info.alias

abbrev pub reversed_names : CReversedThunkInfo → List Bytes
reversed_names info = info.name ∷ info.alias

unfoldable pub rebuild_indexes : ThunkDatabase → ThunkDatabase
unfolding index_entries
rebuild_indexes db = record db {
  forward_thunk_map = index_entries forward_names db.forward_thunks 0 [];
  reversed_thunk_map = index_entries reversed_names db.reversed_thunks 0 [];
}

-- `lookup`; a pointer is the entry it points to.
unfoldable pub lookup_entry {ℓ} : {A : Type ℓ} → List A → Index → Bytes → Run (Option A)
lookup_entry items index name = elim (lookup name index) [
  | none ↦ ok none
  | some i ↦ at items i >>= λ x. ok (some x)
]

unfoldable pub forward_thunk : ThunkDatabase → Bytes → Run (Option CForwardThunkInfo)
unfolding lookup_entry
forward_thunk db name = lookup_entry db.forward_thunks db.forward_thunk_map name

unfoldable pub reversed_thunk : ThunkDatabase → Bytes → Run (Option CReversedThunkInfo)
unfolding lookup_entry
reversed_thunk db name = lookup_entry db.reversed_thunks db.reversed_thunk_map name

-- `m_reversedThunks.push_back(info)`
abbrev pub add_reversed : ThunkDatabase → CReversedThunkInfo → ThunkDatabase
add_reversed db info = record db { reversed_thunks = db.reversed_thunks ++ info ∷ [] }
