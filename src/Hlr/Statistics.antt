-- ===== src/Hlr/Statistics.antt =====
-- `SourceStatistics` of src/tools/HLR/Utils/SourceStatistics.h and SourceStatistics.cpp.
pub mod RoundTrip
use lorelei.Base.{
  Bool, true, false, List, [], ◌∷◌, Option, none, some, Bytes, codes, is_nil, if◌then◌else◌,
}
use lorelei.Ordered.{Map, Set, insert}
use lorelei.LlvmJson.{LlvmJson, Expected, value, error, get_string, get_array, get_object}
use lorelei.LlvmJson.Members.{set_field, insert_strings, text_members, text_items}

-- where a function decays: the location of its declaration, and the last file that refers to it
pub record FunctionDecayGuardData : Type 0 where
  pub locations : Map Bytes

pub record SourceStatistics : Type 0 where
  pub files_need_patch : Set
  pub callback_check_guard_signatures : Set
  pub function_decay_guard_stats : Map FunctionDecayGuardData

abbrev pub clear : SourceStatistics
clear = record {
  files_need_patch = [];
  callback_check_guard_signatures = [];
  function_decay_guard_stats = [];
}

module _ (lib : LlvmJson) where
  open lib use {Value, Text, parse, print, string, array, object, get_as_object}

  -- An item of "functionDecayGuardStats" without a signature or a location is skipped.
  unfoldable pub decay_item : Value → Map FunctionDecayGuardData → Map FunctionDecayGuardData
  unfolding insert_strings
  decay_item v stats = elim (get_as_object v) [
    | none ↦ stats
    | some obj ↦ elim (get_string lib obj (codes "signature")) [
      | none ↦ stats
      | some signature ↦
          let locations : Map Bytes = elim (get_object lib obj (codes "locations")) [
            | none ↦ []
            | some members ↦ insert_strings lib members []
          ] in
          if is_nil locations
          then stats
          else insert signature (record { locations = locations }) stats
    ]
  ]

  unfoldable pub decay_items : List Value → Map FunctionDecayGuardData → Map FunctionDecayGuardData
  decay_items [] stats = stats
  decay_items (v ∷ vs) stats = decay_items vs (decay_item v stats)

  -- What the object holds.
  unfoldable pub parse_object : Map Value → SourceStatistics
  unfolding decay_items
  parse_object obj = record {
    files_need_patch = set_field lib obj (codes "filesNeedPatch");
    callback_check_guard_signatures = set_field lib obj (codes "callbackCheckGuardSignatures");
    function_decay_guard_stats = elim (get_array lib obj (codes "functionDecayGuardStats")) [
      | none ↦ []
      | some vs ↦ decay_items vs []
    ];
  }

  -- The file is read before, or could not be read. A failure leaves the statistics as they were.
  unfoldable pub load_from_json :
      Expected Text → SourceStatistics → Expected (Unit {0}) × SourceStatistics
  unfolding parse_object
  load_from_json (error e) stat = (error e, stat)
  load_from_json (value buffer) stat = elim (parse buffer) [
    | error e ↦ (error e, stat)
    | value json ↦ elim (get_as_object json) [
      | none ↦ (error (codes "not an object"), stat)
      | some obj ↦ (value tt, parse_object obj)
    ]
  ]

  unfoldable pub decay_object : Bytes → FunctionDecayGuardData → Value
  unfolding text_members
  decay_object signature entry = object (
      (codes "signature", string signature)
      ∷ (codes "locations", object (text_members lib entry.locations))
      ∷ [])

  unfoldable pub decay_array : Map FunctionDecayGuardData → List Value
  unfolding decay_object
  decay_array [] = []
  decay_array ((signature, entry) ∷ stats) = decay_object signature entry ∷ decay_array stats

  -- the members of the root, in the order in which they are set
  unfoldable pub root_members : SourceStatistics → Map Value
  unfolding text_items decay_array
  root_members stat =
      (codes "filesNeedPatch", array (text_items lib stat.files_need_patch))
      ∷ (
        codes "callbackCheckGuardSignatures",
        array (text_items lib stat.callback_check_guard_signatures),
      )
      ∷ (codes "functionDecayGuardStats", array (decay_array stat.function_decay_guard_stats))
      ∷ []

  -- The text for the file, or the error when it cannot be opened or written.
  unfoldable pub save_as_json : Option Bytes → Bool → SourceStatistics → Expected Text
  unfolding root_members
  save_as_json open_error write_error stat = elim open_error [
    | some e ↦ error e
    | none ↦
        if write_error
        then error (codes "Failed to write JSON to file")
        else value (print (object (root_members stat)))
  ]
