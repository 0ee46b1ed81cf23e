-- ===== src/Tlc/Summary.antt =====
-- `ManifestSummary` of include/lorelei/TLCApi/ManifestSummary.h and
-- src/libs/TLCApi/ManifestSummary.cpp: what `stat` finds out of a manifest.
pub mod RoundTrip
use lorelei.Base.{
  Bool, true, false, not, ◌&&◌, List, [], ◌∷◌, Option, none, some, Bytes, codes, is_nil,
  if◌then◌else◌,
}
use lorelei.Ordered.{Map, Set, update, assign}
use lorelei.LlvmJson.{LlvmJson, Expected, value, error, get_string, get_array, get_object}
use lorelei.LlvmJson.Members.{set_field, text_items}

pub data ProcDirection : Type 0 where
  guest_to_host host_to_guest : ProcDirection

-- `std::array<A, NumProcDirection>`
pub record PerDirection {ℓ} (A : Type ℓ) : Type ℓ where
  pub to_host : A
  pub to_guest : A

abbrev pub at_direction {ℓ} : {A : Type ℓ} → ProcDirection → PerDirection A → A
at_direction guest_to_host p = p.to_host
at_direction host_to_guest p = p.to_guest

abbrev pub change {ℓ} : {A : Type ℓ} → ProcDirection → (A → A) → PerDirection A → PerDirection A
change guest_to_host f p = record p { to_host = f p.to_host }
change host_to_guest f p = record p { to_guest = f p.to_guest }

-- the source location of the declaration
pub record FunctionEntry : Type 0 where
  pub location : Bytes

pub record CallbackInfo : Type 0 where
  pub signature : Bytes
  pub alias : Bytes
  pub origin : Bytes

pub record ManifestSummary : Type 0 where
  pub file_name : Bytes
  pub functions : PerDirection (Map FunctionEntry)
  pub missing_functions : PerDirection Set
  pub callbacks : Map CallbackInfo

abbrev pub both {ℓ} : {A : Type ℓ} → A → PerDirection A
both a = record { to_host = a; to_guest = a }

abbrev pub clear : ManifestSummary
clear = record { file_name = []; functions = both []; missing_functions = both []; callbacks = [] }

unfoldable pub add_function : ProcDirection → Bytes → Bytes → ManifestSummary → ManifestSummary
add_function direction name location s = record s {
  functions = change direction (assign name (record { location = location })) s.functions;
}

-- a new entry of a map has empty texts
abbrev pub info_or : Option CallbackInfo → CallbackInfo
info_or none = record { signature = []; alias = []; origin = [] }
info_or (some info) = info

abbrev pub merge_callback : Bytes → Bytes → Bytes → Option CallbackInfo → CallbackInfo
merge_callback signature origin preferred old =
    let info = info_or old in
    record {
      signature = signature;
      alias = if not (is_nil preferred) && is_nil info.alias then preferred else info.alias;
      origin = if not (is_nil origin) && is_nil info.origin then origin else info.origin;
    }

unfoldable pub add_callback_signature : Bytes → Bytes → Bytes → ManifestSummary → ManifestSummary
add_callback_signature signature origin preferred s = record s {
  callbacks = update signature (merge_callback signature origin preferred) s.callbacks;
}

abbrev pub text_or : Option Bytes → Bytes → Bytes
text_or none d = d
text_or (some t) d = t

module _ (lib : LlvmJson) where
  open lib use {Value, Text, parse, print, string, array, object, get_as_object}

  unfoldable pub function_item : Value → Map FunctionEntry → Map FunctionEntry
  function_item v m = elim (get_as_object v) [
    | none ↦ m
    | some obj ↦ elim (get_string lib obj (codes "name")) [
      | none ↦ m
      | some name ↦
          assign name (record { location = text_or (get_string lib obj (codes "location")) [] }) m
    ]
  ]

  unfoldable pub function_items : List Value → Map FunctionEntry → Map FunctionEntry
  function_items [] m = m
  function_items (v ∷ vs) m = function_items vs (function_item v m)

  unfoldable pub function_field : Map Value → Bytes → Map FunctionEntry
  unfolding function_items
  function_field obj key = elim (get_array lib obj key) [
    | none ↦ []
    | some vs ↦ function_items vs []
  ]

  abbrev pub read_callback : Map Value → Bytes → Option CallbackInfo → CallbackInfo
  read_callback obj signature old =
      let info = info_or old in
      record {
        signature = signature;
        alias = text_or (get_string lib obj (codes "alias")) info.alias;
        origin = text_or (get_string lib obj (codes "origin")) info.origin;
      }

  unfoldable pub callback_item : Value → Map CallbackInfo → Map CallbackInfo
  callback_item v m = elim (get_as_object v) [
    | none ↦ m
    | some obj ↦ elim (get_string lib obj (codes "signature")) [
      | none ↦ m
      | some signature ↦ update signature (read_callback obj signature) m
    ]
  ]

  unfoldable pub callback_items : List Value → Map CallbackInfo → Map CallbackInfo
  callback_items [] m = m
  callback_items (v ∷ vs) m = callback_items vs (callback_item v m)

  unfoldable pub parse_object : Map Value → ManifestSummary
  unfolding function_field callback_items
  parse_object obj = record {
    file_name = text_or (get_string lib obj (codes "fileName")) [];
    functions = elim (get_object lib obj (codes "functions")) [
      | none ↦ both []
      | some functions ↦ record {
        to_host = function_field functions (codes "GuestToHost");
        to_guest = function_field functions (codes "HostToGuest");
      }
    ];
    missing_functions = elim (get_object lib obj (codes "missingFunctions")) [
      | none ↦ both []
      | some missing ↦ record {
        to_host = set_field lib missing (codes "GuestToHost");
        to_guest = set_field lib missing (codes "HostToGuest");
      }
    ];
    callbacks = elim (get_array lib obj (codes "callbacks")) [
      | none ↦ []
      | some vs ↦ callback_items vs []
    ];
  }

  unfoldable pub load_from_json :
      Expected Text → ManifestSummary → Expected (Unit {0}) × ManifestSummary
  unfolding parse_object
  load_from_json (error e) s = (error e, s)
  load_from_json (value buffer) s = elim (parse buffer) [
    | error e ↦ (error e, s)
    | value json ↦ elim (get_as_object json) [
      | none ↦ (error (codes "not an object"), s)
      | some obj ↦ (value tt, parse_object obj)
    ]
  ]

  abbrev pub function_object : Bytes → FunctionEntry → Map Value
  function_object name info =
      (codes "name", string name) ∷ (codes "location", string info.location) ∷ []

  unfoldable pub serialize_functions : Map FunctionEntry → List Value
  serialize_functions [] = []
  serialize_functions ((name, info) ∷ m) =
      object (function_object name info) ∷ serialize_functions m

  abbrev pub callback_object : CallbackInfo → Map Value
  callback_object info =
      (codes "signature", string info.signature)
      ∷ (codes "alias", string info.alias)
      ∷ (codes "origin", string info.origin)
      ∷ []

  unfoldable pub serialize_callbacks : Map CallbackInfo → List Value
  serialize_callbacks [] = []
  serialize_callbacks ((signature, info) ∷ m) =
      object (callback_object info) ∷ serialize_callbacks m

  abbrev pub direction_members : List Value → List Value → Map Value
  direction_members to_host to_guest =
      (codes "GuestToHost", array to_host) ∷ (codes "HostToGuest", array to_guest) ∷ []

  -- the members of the root, in the order in which they are set
  unfoldable pub root_members : ManifestSummary → Map Value
  unfolding serialize_functions serialize_callbacks text_items
  root_members s =
      (codes "fileName", string s.file_name)
      ∷ (
        codes "functions",
        object (
            direction_members (serialize_functions s.functions.to_host)
              (serialize_functions s.functions.to_guest)),
      )
      ∷ (
        codes "missingFunctions",
        object (
            direction_members (text_items lib s.missing_functions.to_host)
              (text_items lib s.missing_functions.to_guest)),
      )
      ∷ (codes "callbacks", array (serialize_callbacks s.callbacks))
      ∷ []

  unfoldable pub save_as_json : Option Bytes → Bool → ManifestSummary → Expected Text
  unfolding root_members
  save_as_json open_error write_error s = elim open_error [
    | some e ↦ error e
    | none ↦
        if write_error
        then error (codes "Failed to write JSON to file")
        else value (print (object (root_members s)))
  ]
