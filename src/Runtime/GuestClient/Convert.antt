-- ===== src/Runtime/GuestClient/Convert.antt =====
-- What `convertHostProcAddress` of src/modules/GuestRT/GuestClient.cpp gives.
use lorelei.Base.{
  ℕ, ◌<◌, ◌≡◌, sym, ap, subst, ◌∙◌, inl, inr, true, false, List, [], ◌∷◌, Option, none, some, Bytes,
  length, All, ok, Bool, Gives, Gives-ok, Option-cases, ◌>>=◌,
}
use lorelei.ThunkDatabase.{CForwardThunkInfo, CReversedThunkInfo, reversed_thunk}
use lorelei.ThunkDatabase.Json.{JsonLibrary}
use lorelei.ThunkDatabase.Loads.{IsLoaded}
use lorelei.Runtime.HostServer.{
  HostFiles, HostServer, CThunkInfo, forward, reversed, path_max, get_library_name, get_thunk_info,
}
use lorelei.Runtime.HostServer.Discovery.{
  Stable, InDatabase, get_thunk_info-Stable, get_thunk_info-reverse,
}
use lorelei.Runtime.GuestClient.{
  Linker, forward_of, reversed_of, convert_helper, try_thunks, convert_forward,
  convert_host_proc_address,
}

-- A name that the host's buffer takes.
abbrev pub Fits : Bytes → Type 0
Fits path = length (get_library_name path) < path_max

-- A guest thunk that is loaded is taken as it is, another one is loaded first; the answer is its
-- symbol, or null without a library.
pub data GuestSymbol (linker : Linker) (thunk name : Bytes) : Option ℕ → Type 0 where
  loaded_already :
      (handle : ℕ)
      → linker.open_loaded thunk ≡ some handle
      → GuestSymbol linker thunk name (linker.find_symbol handle name)
  loaded_now :
      (handle : ℕ)
      → linker.open_loaded thunk ≡ none
      → linker.open_library thunk ≡ some handle
      → GuestSymbol linker thunk name (linker.find_symbol handle name)
  cannot_load :
      linker.open_loaded thunk ≡ none
      → linker.open_library thunk ≡ none
      → GuestSymbol linker thunk name none

convert_helper-GuestSymbol :
    (linker : Linker) (info : CForwardThunkInfo) (name : Bytes)
    → GuestSymbol linker info.guest_thunk name (convert_helper linker info name)
unfolding convert_helper
convert_helper-GuestSymbol linker info name =
    elim (Option-cases (linker.open_loaded info.guest_thunk)) [
      | inr (handle, e) ↦ rw (convert_helper, e) (loaded_already handle e)
      | inl e ↦ elim (Option-cases (linker.open_library info.guest_thunk)) [
        | inr (handle, f) ↦ rw (convert_helper, e, f) (loaded_now handle e f)
        | inl f ↦ rw (convert_helper, e, f) (cannot_load e f)
      ]
    ]

-- An answer of the host without an entry of a kind.
abbrev pub NoForward : CThunkInfo → Type 0
NoForward info = (entry : CForwardThunkInfo) → ¬ (info ≡ forward (some entry))

abbrev pub NoReversed : CThunkInfo → Type 0
NoReversed info = (entry : CReversedThunkInfo) → ¬ (info ≡ reversed (some entry))

forward_of-some :
    (info : CThunkInfo) (entry : CForwardThunkInfo)
    → forward_of info ≡ some entry
    → info ≡ forward (some entry)
forward_of-some (forward o) entry h = ap forward h
forward_of-some (reversed o) entry h = cc

forward_of-none : (info : CThunkInfo) → forward_of info ≡ none → NoForward info
forward_of-none info h entry e = cc (sym h ∙ ap forward_of e)

reversed_of-some :
    (info : CThunkInfo) (entry : CReversedThunkInfo)
    → reversed_of info ≡ some entry
    → info ≡ reversed (some entry)
reversed_of-some (reversed o) entry h = ap reversed h
reversed_of-some (forward o) entry h = cc

reversed_of-none : (info : CThunkInfo) → reversed_of info ≡ none → NoReversed info
reversed_of-none info h entry e = cc (sym h ∙ ap reversed_of e)

module _ (linker : Linker) (lib : JsonLibrary) (files : HostFiles) where
  -- The host's answer for a thunk, with its state before and behind.
  abbrev pub Asks : Bytes → Bool → HostServer → CThunkInfo → HostServer → Type 0
  Asks path is_reverse s info s' = get_thunk_info lib files s (some path) is_reverse ≡ ok (info, s')

  -- The forward thunks are asked for in order, and the first one that has the symbol answers.
  pub data Tried (name : Bytes) : List Bytes → HostServer → Option ℕ → HostServer → Type 0 where
    none_left : (s : HostServer) → Tried name [] s none s
    not_found :
        (info : CThunkInfo) (thunk : Bytes) (thunks : List Bytes) (s s' s'' : HostServer)
        (func : Option ℕ)
        → Asks thunk false s info s'
        → NoForward info
        → Tried name thunks s' func s''
        → Tried name (thunk ∷ thunks) s func s''
    no_symbol :
        (info : CThunkInfo) (entry : CForwardThunkInfo) (thunk : Bytes) (thunks : List Bytes)
        (s s' s'' : HostServer) (func : Option ℕ)
        → Asks thunk false s info s'
        → info ≡ forward (some entry)
        → GuestSymbol linker entry.guest_thunk name none
        → Tried name thunks s' func s''
        → Tried name (thunk ∷ thunks) s func s''
    found :
        (info : CThunkInfo) (entry : CForwardThunkInfo) (thunk : Bytes) (thunks : List Bytes)
        (s s' : HostServer) (func : ℕ)
        → Asks thunk false s info s'
        → info ≡ forward (some entry)
        → GuestSymbol linker entry.guest_thunk name (some func)
        → Tried name (thunk ∷ thunks) s (some func) s'

  -- The reversed entry of the module decides; without one its forward entry does.
  pub data Converts (name path : Bytes) (s : HostServer) : Option ℕ → HostServer → Type 0 where
    by_reversed :
        (info : CThunkInfo) (entry : CReversedThunkInfo) (s' s'' : HostServer) (func : Option ℕ)
        → Asks path true s info s'
        → info ≡ reversed (some entry)
        → Tried name entry.thunks s' func s''
        → Converts name path s func s''
    by_forward :
        (info info' : CThunkInfo) (entry : CForwardThunkInfo) (s' s'' : HostServer)
        (func : Option ℕ)
        → Asks path true s info s'
        → NoReversed info
        → Asks path false s' info' s''
        → info' ≡ forward (some entry)
        → GuestSymbol linker entry.guest_thunk name func
        → Converts name path s func s''
    no_entry :
        (info info' : CThunkInfo) (s' s'' : HostServer)
        → Asks path true s info s'
        → NoReversed info
        → Asks path false s' info' s''
        → NoForward info'
        → Converts name path s none s''

  abbrev TriedLoaded : Bytes → List Bytes → HostServer → Option ℕ × HostServer → Type 0
  TriedLoaded name thunks s r = IsLoaded r.1.thunk_database × Tried name thunks s r.0 r.1

  try_thunks-Tried :
      (thunks : List Bytes) (name : Bytes) (s : HostServer)
      → All Fits thunks
      → IsLoaded s.thunk_database
      → Gives (try_thunks linker lib files thunks name s) (TriedLoaded name thunks s)
  unfolding try_thunks
  try_thunks-Tried [] name s fits l = (l, none_left s)
  try_thunks-Tried (t ∷ thunks) name s fits l =
      let (r, asks, h) =
        Gives-ok (λ r. Stable s r.1 × InDatabase r.1 r.0)
          (get_thunk_info lib files s (some t) false)
          (get_thunk_info-Stable lib files s (some t) false l fits.0) in
      let (q, rest, later) =
        Gives-ok (TriedLoaded name thunks r.1) (try_thunks linker lib files thunks name r.1)
          (try_thunks-Tried thunks name r.1 fits.1 h.0.loaded) in
      elim (Option-cases (forward_of r.0)) [
        | inl e ↦
            rw (asks, ◌>>=◌, e, rest)
              (later.0, not_found r.0 t thunks s r.1 q.1 q.0 asks (forward_of-none r.0 e) later.1)
        | inr (f, e) ↦
            let symbol = convert_helper-GuestSymbol linker f name in
            elim (Option-cases (convert_helper linker f name)) [
              | inl g ↦
                  let lacks = subst (GuestSymbol linker f.guest_thunk name) g symbol in
                  rw (asks, ◌>>=◌, e, g, rest)
                    (
                      later.0,
                      no_symbol r.0 f t thunks s r.1 q.1 q.0 asks (forward_of-some r.0 f e) lacks
                          later.1,
                    )
              | inr (p, g) ↦
                  let has = subst (GuestSymbol linker f.guest_thunk name) g symbol in
                  rw (asks, ◌>>=◌, e, g)
                    (h.0.loaded, found r.0 f t thunks s r.1 p asks (forward_of-some r.0 f e) has)
            ]
      ]

  reversed_in :
      (s : HostServer) (i : CThunkInfo) (v : CReversedThunkInfo)
      → InDatabase s i
      → reversed_of i ≡ some v
      → (k : Bytes) × (reversed_thunk s.thunk_database k ≡ ok (some v))
  reversed_in s (forward o) v d h = cc
  reversed_in s (reversed none) v d h = cc
  reversed_in s (reversed (some w)) v d h = (d.0, d.1 ∙ ap ok h)

  convert_forward-Converts :
      (path name : Bytes) (s : HostServer) (info : CThunkInfo)
      → Fits path
      → IsLoaded s.thunk_database
      → Asks path true s info s
      → reversed_of info ≡ none
      → Gives
          (convert_forward linker lib files path name s)
          (λ r. IsLoaded r.1.thunk_database × Converts name path s r.0 r.1)
  unfolding convert_forward
  convert_forward-Converts path name s info fits l asked unreversed =
      let (r, asks, h) =
        Gives-ok (λ r. Stable s r.1 × InDatabase r.1 r.0)
          (get_thunk_info lib files s (some path) false)
          (get_thunk_info-Stable lib files s (some path) false l fits) in
      elim (Option-cases (forward_of r.0)) [
        | inl e ↦
            rw (asks, ◌>>=◌, e)
              (
                h.0.loaded,
                no_entry info r.0 s r.1 asked (reversed_of-none info unreversed) asks
                    (forward_of-none r.0 e),
              )
        | inr (f, e) ↦
            rw (asks, ◌>>=◌, e)
              (
                h.0.loaded,
                by_forward info r.0 f s r.1 (convert_helper linker f name) asked
                    (reversed_of-none info unreversed) asks (forward_of-some r.0 f e)
                    (convert_helper-GuestSymbol linker f name),
              )
      ]

-- For a server with a loaded database, where the module of the address is known, its name fits
-- the buffer, and so do the names in every reversed entry, the conversion returns and leaves a
-- loaded database. If the host has a reversed entry for the module, its forward thunks are asked
-- for in order, and the answer is the symbol of the first guest thunk that has one; without a
-- reversed entry it is that of the module's forward entry. A guest thunk that is loaded is taken
-- as it is, another one is loaded; without an entry, a library or a symbol the answer is null.
pub convert_host_proc_address-Converts :
    (linker : Linker) (lib : JsonLibrary) (files : HostFiles) (name path : Bytes) (addr : ℕ)
    (s : HostServer)
    → IsLoaded s.thunk_database
    → linker.module_path addr ≡ some path
    → Fits path
    → ((k : Bytes) (v : CReversedThunkInfo)
        → reversed_thunk s.thunk_database k ≡ ok (some v)
        → All Fits v.thunks)
    → Gives
        (convert_host_proc_address linker lib files name addr s)
        (λ r. IsLoaded r.1.thunk_database × Converts linker lib files name path s r.0 r.1)
unfolding convert_host_proc_address
convert_host_proc_address-Converts linker lib files name path addr s l e fits all =
    let (r, asks, h) =
      Gives-ok (λ r. (r.1 ≡ s) × InDatabase s r.0) (get_thunk_info lib files s (some path) true)
        (get_thunk_info-reverse lib files s (some path) l fits) in
    let asked : get_thunk_info lib files s (some path) true ≡ ok (r.0, s) =
      asks ∙ ap (λ x. ok (r.0, x)) h.0 in
    elim (Option-cases (reversed_of r.0)) [
      | inl f ↦
          rw (convert_host_proc_address, e, asked, ◌>>=◌, f)
            (convert_forward-Converts linker lib files path name s r.0 fits l asked f)
      | inr (v, f) ↦
          let (k, d) = reversed_in linker lib files s r.0 v h.1 f in
          let (q, run, loaded) =
            Gives-ok (TriedLoaded linker lib files name v.thunks s)
              (try_thunks linker lib files v.thunks name s)
              (try_thunks-Tried linker lib files v.thunks name s (all k v d) l) in
          rw (convert_host_proc_address, e, asked, ◌>>=◌, f, run)
            (loaded.0, by_reversed r.0 v s q.1 q.0 asked (reversed_of-some r.0 v f) loaded.1)
    ]
