-- ===== src/Runtime/GuestClient.antt =====
-- `convertHostProcAddress` of src/modules/GuestRT/GuestClient.cpp: the guest function for a host
-- function. The dynamic linker of the guest and the module that holds an address are a parameter; a
-- handle and an address are numbers, and a null pointer is `none`. The request for a thunk is the
-- host's `getThunkInfo`, with the state of the host passed on. Logging is left out.
pub mod Convert
use lorelei.Base.{ℕ, Bool, true, false, List, [], ◌∷◌, Option, none, some, Bytes, Run, ok, ◌>>=◌}
use lorelei.ThunkDatabase.{CForwardThunkInfo, CReversedThunkInfo}
use lorelei.ThunkDatabase.Json.{JsonLibrary}
use lorelei.Runtime.HostServer.{
  HostFiles, HostServer, CThunkInfo, forward, reversed, get_thunk_info,
}

pub record Linker : Type 0 where
  pub open_loaded : Bytes → Option ℕ
  pub open_library : Bytes → Option ℕ
  pub find_symbol : ℕ → Bytes → Option ℕ
  pub module_path : ℕ → Option Bytes

-- The members of the union, null before it is written.
abbrev pub forward_of : CThunkInfo → Option CForwardThunkInfo
forward_of (forward o) = o
forward_of (reversed o) = none

abbrev pub reversed_of : CThunkInfo → Option CReversedThunkInfo
reversed_of (forward o) = none
reversed_of (reversed o) = o

module _ (linker : Linker) where
  open linker use {open_loaded, open_library, find_symbol, module_path}

  -- `convertHostProcAddress_helper`
  unfoldable pub convert_helper : CForwardThunkInfo → Bytes → Option ℕ
  convert_helper info name = elim (open_loaded info.guest_thunk) [
    | some handle ↦ find_symbol handle name
    | none ↦ elim (open_library info.guest_thunk) [
      | some handle ↦ find_symbol handle name
      | none ↦ none
    ]
  ]

  module _ (lib : JsonLibrary) (files : HostFiles) where
    -- The loop over the forward thunks of a reversed entry.
    unfoldable pub try_thunks : List Bytes → Bytes → HostServer → Run (Option ℕ × HostServer)
    unfolding convert_helper
    try_thunks [] name server = ok (none, server)
    try_thunks (thunk ∷ thunks) name server =
        get_thunk_info lib files server (some thunk) false >>= λ r. elim (forward_of r.0) [
          | none ↦ try_thunks thunks name r.1
          | some info ↦ elim (convert_helper info name) [
            | some func ↦ ok (some func, r.1)
            | none ↦ try_thunks thunks name r.1
          ]
        ]

    -- With no reversed entry the thunk of the same name is taken.
    unfoldable pub convert_forward : Bytes → Bytes → HostServer → Run (Option ℕ × HostServer)
    unfolding convert_helper
    convert_forward path name server = get_thunk_info lib files server (some path) false >>= λ r.
        elim (forward_of r.0) [
          | none ↦ ok (none, r.1)
          | some info ↦ ok (convert_helper info name, r.1)
        ]

    unfoldable pub convert_host_proc_address : Bytes → ℕ → HostServer → Run (Option ℕ × HostServer)
    unfolding convert_forward try_thunks
    convert_host_proc_address name addr server = elim (module_path addr) [
      | none ↦ ok (none, server)
      | some path ↦ get_thunk_info lib files server (some path) true >>= λ r.
          elim (reversed_of r.0) [
            | none ↦ convert_forward path name r.1
            | some info ↦ try_thunks info.thunks name r.1
          ]
    ]
