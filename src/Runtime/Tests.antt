-- ===== src/Runtime/Tests.antt =====
-- The properties of the runtime at concrete calls, paths and packs.
use lorelei.Base.{
  none, ◌≡◌, refl, true, false, [], ◌∷◌, ◌++◌, some, codes, equal, ok, Gives, arith, Bytes, All,
  Bool-cases, inl, inr, subst,
}
use lorelei.Index.{lookup, emplace, at}
use lorelei.Str.Trim.{to_lower}
use lorelei.Runtime.Invocation.{
  standard, HostTask, host_return, host_effect, reenter, guest_return, guest_effect, invoke_host,
  HostExecContext, invoke_function,
}
use lorelei.Runtime.Invocation.Balance.{
  host_effects, host_cost, guest_cost, host_depth, guest_depth, invoke_function-after,
}
use lorelei.Runtime.HostServer.{
  HostFiles, HostServer, before_so, at_so, get_library_name, path_get_name, after_slash,
  get_thunk_info,
}
use lorelei.Runtime.HostServer.Discovery.{get_thunk_info-forward_thunk}
use lorelei.Runtime.GuestClient.{Linker, convert_host_proc_address}
use lorelei.Runtime.GuestClient.Convert.{Fits, Converts, convert_host_proc_address-Converts}
use lorelei.ThunkDatabase.{
  CReversedThunkInfo, forward_thunk, reversed_thunk, lookup_entry, rebuild_indexes,
}
use lorelei.ThunkDatabase.Loads.{IsLoaded, rebuild_indexes-IsLoaded}
use lorelei.ThunkDatabase.Tests.{
  nodes, pack_file, no_vars, libm, one_entry, one_entry-IsIndexed, loaded,
}

-- A host function that calls back, where the guest calls the host again.
abbrev nested : HostTask
nested = host_effect 1 (
    reenter standard
      (guest_effect 2 (invoke_host (host_effect 3 host_return) (guest_effect 4 guest_return)))
      (host_effect 5 host_return))

abbrev fresh : HostExecContext
fresh = record { invocations = []; max_invocations = 2; effects = [] }

invoke_function-after_example :
    invoke_function 9 nested fresh ≡ ok (record fresh { effects = [] ++ host_effects nested })
unfolding host_cost guest_cost host_depth guest_depth
invoke_function-after_example = invoke_function-after nested fresh 9 (omega arith) (omega arith)

abbrev files : HostFiles
files = record {
  open_file = pack_file;
  exists = λ p. true;
  parent_path = λ p. codes "/p";
  filename = λ p. codes "x86_64-LoreGTL";
  append = λ p q. p ++ b'/' ∷ q;
  lexically_normal = λ p. p;
}

abbrev server : HostServer
server = record {
  thunk_database = loaded;
  thunk_vars = no_vars;
  host_arch = codes "aarch64";
  thunk_auto_discover = true;
  loaded_pack_prefixes = [];
}

get_thunk_info-forward_thunk_example :
    Gives (get_thunk_info nodes files server (some (codes "/p/libz.so")) false) (λ r.
      IsLoaded r.1.thunk_database
      × (forward_thunk r.1.thunk_database (codes "libm") ≡ ok (some libm)))
unfolding forward_thunk rebuild_indexes equal lookup emplace at get_library_name path_get_name
    after_slash before_so at_so to_lower
get_thunk_info-forward_thunk_example =
    get_thunk_info-forward_thunk nodes files server (some (codes "/p/libz.so")) false (codes "libm")
      libm (rebuild_indexes-IsLoaded one_entry one_entry-IsIndexed) (omega arith) refl

-- A module with a reversed entry: its first thunk has no entry, the second one has.
abbrev callbacks : CReversedThunkInfo
callbacks = record {
  name = codes "libx";
  alias = [];
  file_name = codes "libx.so";
  thunks = codes "libnone" ∷ codes "libm" ∷ [];
}

abbrev with_callbacks : HostServer
with_callbacks = record server {
  thunk_database = rebuild_indexes (record one_entry { reversed_thunks = callbacks ∷ [] });
}

abbrev linker : Linker
linker = record {
  open_loaded = λ p. none;
  open_library = λ p. some 3;
  find_symbol = λ h n. some 77;
  module_path = λ a. some (codes "/h/libx.so");
}

callbacks_fit :
    (k : Bytes) (v : CReversedThunkInfo)
    → reversed_thunk with_callbacks.thunk_database k ≡ ok (some v)
    → All Fits v.thunks
unfolding reversed_thunk lookup_entry rebuild_indexes equal lookup emplace at get_library_name
    path_get_name after_slash before_so at_so to_lower
callbacks_fit k v h = elim (Bool-cases (equal k (codes "libx"))) [
  | inl e ↦
      let same : ok (some callbacks) ≡ ok (some v) =
        rw (reversed_thunk, lookup_entry, lookup, e) at h in
      let is : callbacks ≡ v = cc same in
      subst (λ (w : CReversedThunkInfo). All Fits w.thunks) is (omega arith, (omega arith, tt))
  | inr e ↦ cc (rw (reversed_thunk, lookup_entry, lookup, e) at h)
]

convert_host_proc_address-Converts_example :
    Gives (convert_host_proc_address linker nodes files (codes "cos") 9 with_callbacks) (λ r.
      IsLoaded r.1.thunk_database
      × Converts linker nodes files (codes "cos") (codes "/h/libx.so") with_callbacks r.0 r.1)
unfolding get_library_name path_get_name after_slash before_so at_so to_lower equal
convert_host_proc_address-Converts_example =
    convert_host_proc_address-Converts linker nodes files (codes "cos") (codes "/h/libx.so") 9
      with_callbacks
      (rebuild_indexes-IsLoaded (record one_entry { reversed_thunks = callbacks ∷ [] })
        one_entry-IsIndexed)
      refl (omega arith) callbacks_fit
