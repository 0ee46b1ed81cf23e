-- ===== src/Runtime/HostServer/Discovery.antt =====
-- What requests to the server of src/modules/HostRT/HostServer.cpp do to one another.
use lorelei.Base.{
  ◌≡◌, refl, ap, ◌∙◌, Bool, true, not, ◌||◌, List, ◌++◌, Option, none, some, Bytes, codes, is_nil,
  equal, length, ◌-◌, take, ltb, lt→ltb, ◌<◌, if◌then◌else◌, ok, Gives, Gives-ok, Bool-cases,
  Option-cases, inl, inr,
}
use lorelei.Str.Trim.{ends_with}
use lorelei.ThunkDatabase.{
  ThunkDatabase, CForwardThunkInfo, CReversedThunkInfo, empty, forward_thunk, reversed_thunk,
  forward_names, reversed_names,
}
use lorelei.ThunkDatabase.Json.{JsonLibrary, Vars, load, load_pack}
use lorelei.ThunkDatabase.Loads.{IsLoaded, load-IsLoaded, load_pack-lookup, empty-IsLoaded}
use lorelei.ThunkDatabase.Names.{find_entry}
use lorelei.Runtime.HostServer.{
  HostFiles, HostServer, CThunkInfo, forward, reversed, path_text, path_max, get_library_name,
  thunk_name_of, pack_prefix, load_prefix, discover, resolve_forward_thunk, get_thunk_info,
  configure_thunk_discovery, member,
}

-- What a request leaves: a loaded database in which every answer that was an entry is the same.
pub record Stable (before after : HostServer) : Type 0 where
  pub loaded : IsLoaded after.thunk_database
  pub forward_kept :
      (k : Bytes) (x : CForwardThunkInfo)
      → forward_thunk before.thunk_database k ≡ ok (some x)
      → forward_thunk after.thunk_database k ≡ ok (some x)
  pub reversed_kept :
      (k : Bytes) (x : CReversedThunkInfo)
      → reversed_thunk before.thunk_database k ≡ ok (some x)
      → reversed_thunk after.thunk_database k ≡ ok (some x)

Stable-refl : (s : HostServer) → IsLoaded s.thunk_database → Stable s s
Stable-refl s l = record { loaded = l; forward_kept = λ k x h. h; reversed_kept = λ k x h. h }

-- A lookup in a loaded database returns.
forward_thunk-ok :
    (db : ThunkDatabase) (k : Bytes)
    → IsLoaded db
    → forward_thunk db k ≡ ok (find_entry forward_names db.forward_thunks k)
forward_thunk-ok db k l = (l.rebuilt k).0

reversed_thunk-ok :
    (db : ThunkDatabase) (k : Bytes)
    → IsLoaded db
    → reversed_thunk db k ≡ ok (find_entry reversed_names db.reversed_thunks k)
reversed_thunk-ok db k l = (l.rebuilt k).1

-- An entry in an answer stands in the database.
abbrev pub InDatabase : HostServer → CThunkInfo → Type 0
InDatabase s (forward (some f)) = (k : Bytes) × (forward_thunk s.thunk_database k ≡ ok (some f))
InDatabase s (reversed (some v)) = (k : Bytes) × (reversed_thunk s.thunk_database k ≡ ok (some v))
InDatabase s _ = Unit

forward-InDatabase :
    (s : HostServer) (k : Bytes) (o : Option CForwardThunkInfo)
    → forward_thunk s.thunk_database k ≡ ok o
    → InDatabase s (forward o)
forward-InDatabase s k none h = tt
forward-InDatabase s k (some f) h = (k, h)

reversed-InDatabase :
    (s : HostServer) (k : Bytes) (o : Option CReversedThunkInfo)
    → reversed_thunk s.thunk_database k ≡ ok o
    → InDatabase s (reversed o)
reversed-InDatabase s k none h = tt
reversed-InDatabase s k (some v) h = (k, h)

module _ (lib : JsonLibrary) (files : HostFiles) where
  open files use {open_file, exists, parent_path, filename, append, lexically_normal}

  load_prefix-Stable :
      (s : HostServer) (gtl_dir prefix : Bytes)
      → IsLoaded s.thunk_database
      → Gives (load_prefix lib files s gtl_dir prefix) (Stable s)
  unfolding load_prefix
  load_prefix-Stable s gtl_dir prefix l =
      let pack_json =
        append (append (append prefix (codes "share")) (codes "lorelei")) (codes "ThunkDB.json") in
      let host_thunk_dir = append (append prefix (codes "lib")) (s.host_arch ++ codes "-LoreHTL") in
      elim (Bool-cases (exists pack_json)) [
        | inr e ↦
            rw (e, load_prefix)
              (record { loaded = l; forward_kept = λ k x h. h; reversed_kept = λ k x h. h })
        | inl e ↦
            let (r, run, (l', f, b)) =
              Gives-ok _
                (load_pack lib open_file pack_json gtl_dir host_thunk_dir s.thunk_vars
                  s.thunk_database)
                (load_pack-lookup lib open_file pack_json gtl_dir host_thunk_dir s.thunk_vars
                  s.thunk_database l) in
            rw (e, load_prefix, run) (record { loaded = l'; forward_kept = f; reversed_kept = b })
      ]

  discover-Stable :
      (s : HostServer) (path : Option Bytes) (name : Bytes)
      → IsLoaded s.thunk_database
      → Gives (discover lib files s path name) (λ r. Stable s r.1 × InDatabase r.1 (forward r.0))
  unfolding discover
  discover-Stable s path name l =
      let same : Stable s s × InDatabase s (forward none) = (Stable-refl s l, tt) in
      let p = path_text path in
      let gtl_dir = parent_path p in
      let prefix = pack_prefix lib files gtl_dir in
      elim (Bool-cases (not s.thunk_auto_discover || is_nil p)) [
        | inl e ↦ rw (e, discover) same
        | inr e ↦ elim (Bool-cases (not (equal (filename gtl_dir) (codes "x86_64-LoreGTL")))) [
          | inl f ↦ rw (e, f, discover) same
          | inr f ↦
              elim (Bool-cases
                (is_nil prefix || member (lexically_normal prefix) s.loaded_pack_prefixes)) [
                  | inl g ↦ rw (e, f, g, discover) same
                  | inr g ↦
                      let (s', run, st) =
                        Gives-ok _ (load_prefix lib files s gtl_dir prefix)
                          (load_prefix-Stable s gtl_dir prefix l) in
                      rw (e, f, g, discover, run, forward_thunk-ok s'.thunk_database name st.loaded)
                        (
                          st,
                          forward-InDatabase s' name _
                              (forward_thunk-ok s'.thunk_database name st.loaded),
                        )
                ]
        ]
      ]

  resolve_forward_thunk-Stable :
      (s : HostServer) (path : Option Bytes) (name : Bytes)
      → IsLoaded s.thunk_database
      → Gives
          (resolve_forward_thunk lib files s path name)
          (λ r. Stable s r.1 × InDatabase r.1 (forward r.0))
  unfolding resolve_forward_thunk
  resolve_forward_thunk-Stable s path name l =
      let found = find_entry forward_names s.thunk_database.forward_thunks name in
      elim (Option-cases found) [
        | inl e ↦
            rw (forward_thunk-ok s.thunk_database name l, e, resolve_forward_thunk)
              (discover-Stable s path name l)
        | inr (x, e) ↦
            let h = forward_thunk-ok s.thunk_database name l in
            rw (h, e, resolve_forward_thunk) (Stable-refl s l, (name, h ∙ ap ok e))
      ]

-- The answers that a request leaves as they were, and its own.
pub get_thunk_info-Stable :
    (lib : JsonLibrary) (files : HostFiles) (s : HostServer) (path : Option Bytes)
    (is_reverse : Bool)
    → IsLoaded s.thunk_database
    → length (get_library_name (path_text path)) < path_max
    → Gives (get_thunk_info lib files s path is_reverse) (λ r. Stable s r.1 × InDatabase r.1 r.0)
unfolding get_thunk_info thunk_name_of
get_thunk_info-Stable lib files s path is_reverse l h =
    let name = get_library_name (path_text path) in
    let fits : ltb (length name) path_max ≡ true = lt→ltb (length name) path_max h in
    let key = if ends_with name (codes "_HTL") then take (length name - 4) name else name in
    rw fits (elim (Bool-cases is_reverse) [
      | inl e ↦
          let h = reversed_thunk-ok s.thunk_database key l in
          rw (e, h) (Stable-refl s l, reversed-InDatabase s key _ h)
      | inr e ↦
          let (r, run, st) =
            Gives-ok _ (resolve_forward_thunk lib files s path key)
              (resolve_forward_thunk-Stable lib files s path key l) in
          rw (e, run) st
    ])

-- A request for a reversed thunk changes nothing.
pub get_thunk_info-reverse :
    (lib : JsonLibrary) (files : HostFiles) (s : HostServer) (path : Option Bytes)
    → IsLoaded s.thunk_database
    → length (get_library_name (path_text path)) < path_max
    → Gives (get_thunk_info lib files s path true) (λ r. (r.1 ≡ s) × InDatabase s r.0)
unfolding get_thunk_info thunk_name_of
get_thunk_info-reverse lib files s path l h =
    let name = get_library_name (path_text path) in
    let fits : ltb (length name) path_max ≡ true = lt→ltb (length name) path_max h in
    let key = if ends_with name (codes "_HTL") then take (length name - 4) name else name in
    let found = reversed_thunk-ok s.thunk_database key l in
    rw (fits, found) (refl, reversed-InDatabase s key _ found)

-- A request with a name that fits the buffer, to a server with a loaded database, returns,
-- whatever the files hold; the database stays a loaded one, and a name or an alias that led to a
-- forward entry leads to the same entry afterwards.
pub get_thunk_info-forward_thunk :
    (lib : JsonLibrary) (files : HostFiles) (s : HostServer) (path : Option Bytes)
    (is_reverse : Bool) (k : Bytes) (x : CForwardThunkInfo)
    → IsLoaded s.thunk_database
    → length (get_library_name (path_text path)) < path_max
    → forward_thunk s.thunk_database k ≡ ok (some x)
    → Gives
        (get_thunk_info lib files s path is_reverse)
        (λ r. IsLoaded r.1.thunk_database × (forward_thunk r.1.thunk_database k ≡ ok (some x)))
get_thunk_info-forward_thunk lib files s path is_reverse k x l fits h =
    let (r, run, st) =
      Gives-ok _ (get_thunk_info lib files s path is_reverse)
        (get_thunk_info-Stable lib files s path is_reverse l fits) in
    rw run (st.0.loaded, st.0.forward_kept k x h)

-- A server that is set up, whatever the override file holds, answers from a loaded database.
pub configure_thunk_discovery-IsLoaded :
    (lib : JsonLibrary) (files : HostFiles) (vars : Vars) (override_path host_arch : Bytes)
    (auto_discover : Bool) (prefixes : List Bytes)
    → Gives
        (configure_thunk_discovery lib files vars override_path host_arch auto_discover prefixes)
        (λ s. IsLoaded s.thunk_database)
unfolding configure_thunk_discovery
configure_thunk_discovery-IsLoaded lib files vars override_path host_arch auto_discover prefixes =
    elim (Bool-cases (is_nil override_path)) [
      | inl e ↦ rw (e, configure_thunk_discovery) empty-IsLoaded
      | inr e ↦
          let (r, run, l) =
            Gives-ok _ (load lib files.open_file override_path vars empty)
              (load-IsLoaded lib files.open_file override_path vars empty) in
          rw (e, configure_thunk_discovery, run) l
    ]
