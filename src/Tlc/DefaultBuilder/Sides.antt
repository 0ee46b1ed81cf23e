-- ===== src/Tlc/DefaultBuilder/Sides.antt =====
-- What the default builder, src/tools/TLC/Passes/Builder/DefaultBuilder.cpp, writes for the side that
-- sends a call and for the side that receives it.
use lorelei.Base.{
  ℕ, suc, ◌≡◌, List, [], ◌∷◌, ◌++◌, flatten, map, Option, some, Bytes, codes, to_string, false,
  if◌then◌else◌,
}
use lorelei.Tlc.Snippet.{
  ProcKind, function, callback, ProcDirection, guest_to_host, host_to_guest, ProcPhase, entry,
  adapt, caller, Clang, Line, FunctionInfo, ProcSource,
}
use lorelei.Tlc.Document.{Mode, guest, host}

-- the ends of a call
pub data End : Type 0 where
  sending : End
  receiving : End

abbrev pub mode_of : End → ProcDirection → Mode
mode_of sending guest_to_host = guest
mode_of sending host_to_guest = host
mode_of receiving guest_to_host = host
mode_of receiving host_to_guest = guest

unfoldable pub joined : List Bytes → Bytes
joined [] = []
joined (x ∷ []) = x
joined (x ∷ y ∷ xs) = x ++ (codes ", " ++ joined (y ∷ xs))

abbrev pub argument : ℕ → Bytes
argument n = codes "arg" ++ to_string n

-- a callback is passed to itself
abbrev pub self_names : ProcKind → List Bytes
self_names function = []
self_names callback = codes "callback" ∷ []

abbrev prefix : ProcKind → Bytes
prefix function = codes "ProcFn<"
prefix callback = codes "ProcCb<"

abbrev direction_text : ProcDirection → Bytes
direction_text guest_to_host = codes "GuestToHost"
direction_text host_to_guest = codes "HostToGuest"

abbrev pub callee : ProcKind → ProcDirection → Bytes → Bytes → Bytes
callee kind d name next =
    prefix kind
    ++ (name ++ (codes ", " ++ (direction_text d ++ (codes ", " ++ (next ++ codes ">::invoke")))))

-- a phase calls the one behind it
abbrev pub next : ProcPhase → Bytes
next entry = codes "Adapt"
next adapt = codes "Caller"
next caller = codes "Exec"

abbrev last_callback : ProcDirection → Bytes
last_callback guest_to_host = codes "HCB"
last_callback host_to_guest = codes "GCB"

abbrev line : Bytes → Bytes
line text = text ++ 10 ∷ []

-- how the callback of the other side is found
abbrev pub finding : ProcKind → ProcDirection → Bytes
finding function d = []
finding callback d =
    line (codes "#ifdef LORE_THUNK_CALLBACK_REPLACE")
    ++ (line (codes "    LORE_THUNK_GET_LAST_GCB(callback);")
        ++ (line (codes "#else")
            ++ (line
                  (codes "    void *callback = LORE_THUNK_LAST_" ++ (last_callback d ++ codes ";"))
                ++ line (codes "#endif"))))

abbrev pub written : List Line → Bytes
written lines = flatten (map (λ l. l.text) lines)

module _ (clang : Clang) where
  open clang use {
    QualType, void_type, is_void, pointer_to, type_string, type_string_with_name, view_return_type,
    view_arg_types, view_is_variadic,
  }

  abbrev Args : Type 0
  Args = List (Option QualType × Bytes)

  unfoldable pub arguments : ℕ → List QualType → Args
  arguments n [] = []
  arguments n (t ∷ ts) = (some t, argument n) ∷ arguments (suc n) ts

  unfoldable pub names : ℕ → List QualType → List Bytes
  names n [] = []
  names n (t ∷ ts) = argument n ∷ names (suc n) ts

  abbrev pub self : ProcKind → Args
  self function = []
  self callback = (some (pointer_to void_type), codes "callback") ∷ []

  abbrev pub signature : Args → QualType → FunctionInfo clang
  signature before t = record {
    return_type = some (view_return_type t);
    args = before ++ arguments 1 (view_arg_types t);
    meta_arg_types = [];
    meta_ret_type = [];
    variadic = view_is_variadic t;
  }

  -- The sender's entry has the signature of the proc, the receiver's takes what is packed; between
  -- them a callback is an argument of its own.
  abbrev pub declared : End → ProcKind → QualType → ProcPhase → FunctionInfo clang
  declared sending kind t entry = signature [] t
  declared receiving kind t entry = record {
    return_type = some void_type;
    args =
        self kind
        ++ (some (pointer_to (pointer_to void_type)), codes "args")
          ∷ (some (pointer_to void_type), codes "ret")
          ∷ (some (pointer_to void_type), codes "metadata")
          ∷ [];
    meta_arg_types = [];
    meta_ret_type = [];
    variadic = false;
  }
  declared e kind t adapt = signature (self kind) t
  declared e kind t caller = signature (self kind) t

  abbrev pub result_decl : QualType → Bytes
  result_decl t =
      if is_void (view_return_type t)
      then []
      else codes "    "
        ++ (type_string_with_name (some (view_return_type t)) (codes "ret") ++ line (codes ";"))

  abbrev pub result_read : QualType → Bytes
  result_read t =
      if is_void (view_return_type t)
      then []
      else codes "    auto &ret_ref = *("
        ++ (type_string (pointer_to (view_return_type t)) ++ line (codes ") ret;"))

  -- The sender packs the addresses of the arguments, and the receiver reads argument i + 1 from
  -- slot i at its type.
  unfoldable pub packing : ℕ → List QualType → Bytes
  packing n [] = []
  packing n (t ∷ ts) =
      (codes "        (void *) &" ++ (argument n ++ line (codes ","))) ++ packing (suc n) ts

  unfoldable pub reading : ℕ → List QualType → Bytes
  reading i [] = []
  reading i (t ∷ ts) =
      (codes "    auto &"
        ++ (argument (suc i)
            ++ (codes " = *("
                ++ (type_string (pointer_to t)
                    ++ (codes ") args[" ++ (to_string i ++ line (codes "];")))))))
      ++ reading (suc i) ts

  abbrev pub opening : End → ProcKind → ProcDirection → QualType → ProcPhase → Bytes
  opening sending kind d t entry = result_decl t ++ finding kind d
  opening receiving kind d t entry = reading 0 (view_arg_types t) ++ result_read t
  opening e kind d t adapt = result_decl t
  opening sending kind d t caller =
      result_decl t
      ++ (line (codes "    void *args[] = {")
          ++ (packing 1 (view_arg_types t) ++ line (codes "    };")))
  opening receiving kind d t caller = result_decl t

  -- a call whose result goes into a variable, where there is one
  abbrev pub assigned : Bytes → Bytes → List Bytes → QualType → Bytes
  assigned variable func args t =
      codes "    "
      ++ ((if is_void (view_return_type t) then [] else variable ++ codes " = ")
          ++ (func ++ (codes "(" ++ (joined args ++ line (codes ");")))))

  abbrev pub call_names : ProcKind → QualType → List Bytes
  call_names kind t = self_names kind ++ names 1 (view_arg_types t)

  abbrev pub packed_names : ProcKind → QualType → List Bytes
  packed_names kind t =
      self_names kind
      ++ codes "args"
        ∷ (if is_void (view_return_type t) then codes "nullptr" else codes "&ret")
        ∷ codes "nullptr"
        ∷ []

  abbrev pub statement : End → ProcKind → ProcDirection → Bytes → QualType → ProcPhase → Bytes
  statement sending kind d name t caller =
      codes "    "
      ++ (callee kind d name (next caller)
          ++ (codes "(" ++ (joined (packed_names kind t) ++ line (codes ");"))))
  statement receiving kind d name t entry =
      assigned (codes "ret_ref") (callee kind d name (next entry)) (call_names kind t) t
  statement e kind d name t phase =
      assigned (codes "ret") (callee kind d name (next phase)) (call_names kind t) t

  abbrev pub closing : End → QualType → ProcPhase → Bytes
  closing receiving t entry = []
  closing e t phase = if is_void (view_return_type t) then [] else line (codes "    return ret;")

  -- What a source of a phase becomes.
  pub record Emits (e : End) (kind : ProcKind) (d : ProcDirection) (name : Bytes) (t : QualType)
      (phase : ProcPhase) (old new : ProcSource clang) : Type 0 where
    pub declared_as : new.function_info ≡ declared e kind t phase
    pub prolog : written new.body.prolog ≡ written old.body.prolog ++ opening e kind d t phase
    pub center :
        written new.body.center ≡ written old.body.center ++ statement e kind d name t phase
    pub epilog : written new.body.epilog ≡ written old.body.epilog ++ closing e t phase
    pub forward : new.body.forward ≡ old.body.forward
    pub backward : new.body.backward ≡ old.body.backward
