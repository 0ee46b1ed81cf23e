-- ===== src/Runtime/HostServer.antt =====
-- The thunk lookups of the host: `getLibraryName`, `thunkNameOf`, `configureThunkDiscovery`,
-- `getThunkInfo` and `resolveForwardThunk` of src/modules/HostRT/HostServer.cpp. The file system
-- and the operations on paths are a parameter; a path is its text. `getThunkInfo` holds its lock
-- throughout, so requests come one after another. Logging is left out.
pub mod Names
pub mod Discovery
use lorelei.Base.{
  ℕ, zero, suc, ◌+◌, ◌-◌, Bool, true, false, not, ◌&&◌, ◌||◌, List, [], ◌∷◌, ◌++◌, Option, none,
  some, Bytes, codes, is_nil, equal, length, take, drop, has_prefix, ◌==◌, ltb, leb, if◌then◌else◌,
  Run, ok, undefined, ◌>>=◌,
}
use lorelei.Str.Trim.{ends_with, to_lower}
use lorelei.ThunkDatabase.{
  ThunkDatabase, CForwardThunkInfo, CReversedThunkInfo, empty, forward_thunk, reversed_thunk,
}
use lorelei.ThunkDatabase.Json.{JsonLibrary, Vars, load, load_pack}

-- `strrchr(path, '/') + 1`
unfoldable pub after_slash : Bytes → Option Bytes
after_slash [] = none
after_slash (c ∷ cs) = elim (after_slash cs) [
  | some t ↦ some t
  | none ↦ if c == b'/' then some cs else none
]

unfoldable pub path_get_name : Bytes → Bytes
unfolding after_slash
path_get_name path = elim (after_slash path) [ none ↦ path | some t ↦ t ]

-- `strncasecmp(p, ".so", 3) == 0`
unfoldable pub at_so : Bytes → Bool
unfolding to_lower
at_so p = equal (to_lower (take 3 p)) (codes ".so")

-- The text before the rightmost ".so", all of it when there is none.
unfoldable pub before_so : Bytes → Option Bytes
unfolding at_so
before_so [] = none
before_so (c ∷ cs) = elim (before_so cs) [
  | some t ↦ some (c ∷ t)
  | none ↦ if at_so (c ∷ cs) then some [] else none
]

unfoldable pub get_library_name : Bytes → Bytes
unfolding path_get_name before_so
get_library_name path = elim (before_so (path_get_name path)) [
  | some t ↦ t
  | none ↦ path_get_name path
]

-- The text of a path, empty for a null pointer.
abbrev pub path_text : Option Bytes → Bytes
path_text none = []
path_text (some p) = p

abbrev pub path_max : ℕ
path_max = 4096

-- The buffer has `PATH_MAX` bytes, for the name and its NUL.
unfoldable pub thunk_name_of : Option Bytes → Run Bytes
unfolding get_library_name ends_with
thunk_name_of path =
    let name = get_library_name (path_text path) in
    if ltb (length name) path_max
    then ok (if ends_with name (codes "_HTL") then take (length name - 4) name else name)
    else undefined

-- What the code takes from `std::filesystem` and `std::ifstream`.
pub record HostFiles : Type 0 where
  pub open_file : Bytes → Option Bytes
  pub exists : Bytes → Bool
  pub parent_path : Bytes → Bytes
  pub filename : Bytes → Bytes
  pub append : Bytes → Bytes → Bytes
  pub lexically_normal : Bytes → Bytes

pub record HostServer : Type 0 where
  pub thunk_database : ThunkDatabase
  pub thunk_vars : Vars
  pub host_arch : Bytes
  pub thunk_auto_discover : Bool
  pub loaded_pack_prefixes : List Bytes

unfoldable pub member : Bytes → List Bytes → Bool
member k [] = false
member k (x ∷ xs) = if equal k x then true else member k xs

pub data CThunkInfo : Type 0 where
  forward : Option CForwardThunkInfo → CThunkInfo
  reversed : Option CReversedThunkInfo → CThunkInfo

module _ (lib : JsonLibrary) (files : HostFiles) where
  open files use {open_file, exists, parent_path, filename, append, lexically_normal}

  -- `configureThunkDiscovery`; what the server had before goes.
  unfoldable pub configure_thunk_discovery :
      Vars → Bytes → Bytes → Bool → List Bytes → Run HostServer
  configure_thunk_discovery vars override_path host_arch auto_discover prefixes =
      (if is_nil override_path
        then ok empty
        else (load lib open_file override_path vars empty >>= λ r. ok r.1))
      >>= λ db. ok (record {
        thunk_database = db;
        thunk_vars = vars;
        host_arch = host_arch;
        thunk_auto_discover = auto_discover;
        loaded_pack_prefixes = prefixes;
      })

  abbrev pub pack_prefix : Bytes → Bytes
  pack_prefix gtl_dir = parent_path (parent_path (parent_path gtl_dir))

  -- The pack of a prefix that has not been seen.
  unfoldable pub load_prefix : HostServer → Bytes → Bytes → Run HostServer
  load_prefix server gtl_dir prefix =
      let pack_json =
        append (append (append prefix (codes "share")) (codes "lorelei")) (codes "ThunkDB.json") in
      let host_thunk_dir =
        append (append prefix (codes "lib")) (server.host_arch ++ codes "-LoreHTL") in
      let seen = record server {
        loaded_pack_prefixes = lexically_normal prefix ∷ server.loaded_pack_prefixes;
      } in
      if exists pack_json
      then (load_pack lib open_file pack_json gtl_dir host_thunk_dir server.thunk_vars
            server.thunk_database
          >>= λ r. ok (record seen { thunk_database = r.1 }))
      else ok seen

  -- The convention, after a miss in the database.
  unfoldable pub discover :
      HostServer → Option Bytes → Bytes → Run (Option CForwardThunkInfo × HostServer)
  unfolding load_prefix
  discover server path name =
      let p = path_text path in
      let gtl_dir = parent_path p in
      let prefix = pack_prefix gtl_dir in
      if not server.thunk_auto_discover || is_nil p
      then ok (none, server)
      else if not (equal (filename gtl_dir) (codes "x86_64-LoreGTL"))
      then ok (none, server)
      else if is_nil prefix || member (lexically_normal prefix) server.loaded_pack_prefixes
      then ok (none, server)
      else (load_prefix server gtl_dir prefix >>= λ s.
          forward_thunk s.thunk_database name >>= λ e. ok (e, s))

  unfoldable pub resolve_forward_thunk :
      HostServer → Option Bytes → Bytes → Run (Option CForwardThunkInfo × HostServer)
  unfolding discover
  resolve_forward_thunk server path name =
      forward_thunk server.thunk_database name
      >>= elim [ some entry ↦ ok (some entry, server) | none ↦ discover server path name ]

  unfoldable pub get_thunk_info : HostServer → Option Bytes → Bool → Run (CThunkInfo × HostServer)
  unfolding resolve_forward_thunk thunk_name_of
  get_thunk_info server path is_reverse = thunk_name_of path >>= λ name.
      if is_reverse
      then (reversed_thunk server.thunk_database name >>= λ e. ok (reversed e, server))
      else (resolve_forward_thunk server path name >>= λ r. ok (forward r.0, r.1))
