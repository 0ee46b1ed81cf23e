-- ===== src/ThunkDatabase/Tests.antt =====
-- The properties of the thunk database at a concrete JSON document, whose nodes are numbers: 0 is
-- the document, 1 its array of forward thunks, 2 the one entry, and the others its texts.
use lorelei.Base.{
  ℕ, ◌≡◌, refl, false, [], ◌∷◌, Option, none, some, Bytes, codes, equal, ◌==◌, ◌||◌, leb,
  if◌then◌else◌, ok, Gives,
}
use lorelei.Config.Section.{c_str}
use lorelei.Index.{lookup, emplace, at}
use lorelei.ThunkDatabase.{
  ThunkDatabase, CForwardThunkInfo, empty, forward_names, index_entries, lookup_entry,
  forward_thunk, rebuild_indexes, upsert_forward,
}
use lorelei.ThunkDatabase.Json.{JsonLibrary, Vars, load, load_pack}
use lorelei.ThunkDatabase.Entries.{IsIndexed, upsert_forward-Upserted}
use lorelei.ThunkDatabase.Names.{find_entry, lookup_entry-index_entries}
use lorelei.ThunkDatabase.Loads.{
  IsLoaded, load-IsLoaded, empty-IsLoaded, load_pack-forward_thunk, rebuild_indexes-IsLoaded,
}

abbrev node_text : ℕ → Bytes
node_text n =
    if n == 3
    then codes "libz"
    else if n == 4
    then codes "${GTL_DIR}/libz.so"
    else codes "/h/libz_HTL.so"

abbrev node_field : ℕ → Bytes → Option ℕ
node_field n key =
    if n == 0
    then (if equal key (codes "forwardThunks") then some 1 else none)
    else if equal key (codes "name")
    then some 3
    else if equal key (codes "guestThunk")
    then some 4
    else if equal key (codes "hostThunk")
    then some 5
    else none

abbrev pub nodes : JsonLibrary
nodes = record {
  Json = ℕ;
  parse = λ text. some 0;
  is_string = λ n. leb 3 n;
  is_array = λ n. n == 1;
  is_object = λ n. n == 0 || n == 2;
  string_value = node_text;
  array_items = λ n. 2 ∷ [];
  field = node_field;
}

abbrev pub pack_file : Bytes → Option Bytes
pack_file path = some (codes "{}")

abbrev pub no_vars : Vars
no_vars key = none

abbrev pub libm : CForwardThunkInfo
libm = record {
  name = codes "libm";
  alias = codes "libm-2" ∷ [];
  guest_thunk = codes "/g/libm.so";
  host_thunk = codes "/h/libm_HTL.so";
  host_library = codes "libm.so.6";
}

abbrev pub one_entry : ThunkDatabase
one_entry = record empty { forward_thunks = libm ∷ []; forward_index = (codes "libm", 0) ∷ [] }

pub one_entry-IsIndexed : IsIndexed one_entry
unfolding upsert_forward lookup c_str
one_entry-IsIndexed =
    (upsert_forward-Upserted empty (codes "libm") (codes "libm-2" ∷ []) (codes "/g/libm.so")
      (codes "/h/libm_HTL.so") (codes "libm.so.6") false empty-IsLoaded.indexed).valid

abbrev pub loaded : ThunkDatabase
loaded = rebuild_indexes one_entry

load_pack-forward_thunk_example :
    Gives
      (load_pack nodes pack_file (codes "ThunkDB.json") (codes "/g") (codes "/h") no_vars loaded)
      (λ r. IsLoaded r.1 × (forward_thunk r.1 (codes "libm-2") ≡ ok (some libm)))
unfolding forward_thunk rebuild_indexes equal lookup emplace at
load_pack-forward_thunk_example =
    load_pack-forward_thunk nodes pack_file (codes "ThunkDB.json") (codes "/g") (codes "/h") no_vars
      loaded (codes "libm-2") libm (rebuild_indexes-IsLoaded one_entry one_entry-IsIndexed) refl

lookup_entry-index_entries_example :
    lookup_entry (libm ∷ []) (index_entries forward_names (libm ∷ []) 0 []) (codes "libm-2")
    ≡ ok (find_entry forward_names (libm ∷ []) (codes "libm-2"))
lookup_entry-index_entries_example =
    lookup_entry-index_entries forward_names (libm ∷ []) (codes "libm-2")

load-IsLoaded_example :
    Gives (load nodes pack_file (codes "ThunkDB.json") no_vars one_entry) (λ r. IsLoaded r.1)
load-IsLoaded_example = load-IsLoaded nodes pack_file (codes "ThunkDB.json") no_vars one_entry
