-- ===== src/Tlc/Summary/RoundTrip.antt =====
-- What `saveAsJson` writes, `loadFromJson` reads back (src/libs/TLCApi/ManifestSummary.cpp).
use mathlib.Core.Path.{fun_ext}
use lorelei.Base.{
  Option, ◌≡◌, refl, ◌∙◌, ap, true, false, [], ◌∷◌, some, none, Bytes, codes, equal, All, arith,
}
use lorelei.Ordered.{Map, find, Set, assign}
use lorelei.Ordered.Laws.{IsSorted}
use lorelei.Ordered.Fill.{update_all, update_all-append}
use lorelei.LlvmJson.{LlvmJson, value, Documented, HasMembers}
use lorelei.LlvmJson.Members.{Utf8Keys, text_items, set_field-text_items, object_named}
use lorelei.Tlc.Summary.{
  FunctionEntry, CallbackInfo, ManifestSummary, function_item, function_items, function_field,
  callback_item, callback_items, read_callback, parse_object, load_from_json, save_as_json,
  function_object, callback_object, serialize_functions, serialize_callbacks, direction_members,
  root_members,
}

module _ (lib : LlvmJson) where
  open lib use {Value, Text, array, object, string, get_as_object, is_utf8, print}

  pub record IsFunctions (m : Map FunctionEntry) : Type 0 where
    pub sorted : IsSorted m
    pub names : Utf8Keys lib m
    pub locations : All (λ e. is_utf8 e.1.location ≡ true) m

  pub record IsNames (s : Set) : Type 0 where
    pub sorted : IsSorted s
    pub names : Utf8Keys lib s

  -- An entry stands under its signature, and its texts are UTF-8.
  pub record IsCallback (signature : Bytes) (info : CallbackInfo) : Type 0 where
    pub key : info.signature ≡ signature
    pub signature_text : is_utf8 info.signature ≡ true
    pub alias_text : is_utf8 info.alias ≡ true
    pub origin_text : is_utf8 info.origin ≡ true

  pub record IsValid (s : ManifestSummary) : Type 0 where
    pub file_text : is_utf8 s.file_name ≡ true
    pub to_host : IsFunctions s.functions.to_host
    pub to_guest : IsFunctions s.functions.to_guest
    pub missing_to_host : IsNames s.missing_functions.to_host
    pub missing_to_guest : IsNames s.missing_functions.to_guest
    pub callbacks_sorted : IsSorted s.callbacks
    pub callbacks : All (λ e. IsCallback e.0 e.1) s.callbacks

  module _ (doc : Documented lib) where
    function_item-object :
        (name : Bytes) (info : FunctionEntry) (m : Map FunctionEntry)
        → is_utf8 name ≡ true
        → is_utf8 info.location ≡ true
        → function_item lib (object (function_object lib name info)) m ≡ assign name info m
    unfolding function_item find equal
    function_item-object name info m u l =
        let (ms, h) =
          object_named lib doc (function_object lib name info) (refl, (refl, tt)) (omega arith) in
        rw
          (
            function_item,
            h.0,
            h.2 (codes "name"),
            doc.string_lem name u,
            h.2 (codes "location"),
            doc.string_lem info.location l,
          )
          refl

    function_items-serialize :
        (entries m : Map FunctionEntry)
        → Utf8Keys lib entries
        → All (λ e. is_utf8 e.1.location ≡ true) entries
        → function_items lib (serialize_functions lib entries) m ≡ update_all (λ k v o. v) entries m
    unfolding function_items serialize_functions update_all
    function_items-serialize [] m u l = refl
    function_items-serialize ((name, info) ∷ entries) m u l =
        rw (function_items, function_item-object name info m u.0 l.0)
          (function_items-serialize entries (assign name info m) u.1 l.1)

    function_field-serialize :
        (members : Map Value) (key : Bytes) (m : Map FunctionEntry)
        → find key members ≡ some (array (serialize_functions lib m))
        → IsFunctions m
        → function_field lib members key ≡ m
    unfolding function_field
    function_field-serialize members key m h v =
        rw (function_field, h, doc.array_lem (serialize_functions lib m))
          (function_items-serialize m [] v.names v.locations
            ∙ update_all-append _ (λ k w. refl) m [] v.sorted)

    callback_item-object :
        (signature : Bytes) (info : CallbackInfo) (m : Map CallbackInfo)
        → IsCallback signature info
        → callback_item lib (object (callback_object lib info)) m ≡ assign signature info m
    unfolding callback_item find equal
    callback_item-object signature info m v =
        let (ms, h) =
          object_named lib doc (callback_object lib info) (refl, (refl, (refl, tt)))
            (omega arith) in
        let fresh : (o : Option CallbackInfo) → read_callback lib ms info.signature o ≡ info = λ o.
          rw
            (
              read_callback,
              h.2 (codes "alias"),
              doc.string_lem info.alias v.alias_text,
              h.2 (codes "origin"),
              doc.string_lem info.origin v.origin_text,
            )
            refl in
        rw
          (
            callback_item,
            h.0,
            h.2 (codes "signature"),
            doc.string_lem info.signature v.signature_text,
            fun_ext fresh,
          )
          (ap (λ k. assign k info m) v.key)

    callback_items-serialize :
        (entries m : Map CallbackInfo)
        → All (λ e. IsCallback e.0 e.1) entries
        → callback_items lib (serialize_callbacks lib entries) m ≡ update_all (λ k v o. v) entries m
    unfolding callback_items serialize_callbacks update_all
    callback_items-serialize [] m v = refl
    callback_items-serialize ((signature, info) ∷ entries) m v =
        rw (callback_items, callback_item-object signature info m v.0)
          (callback_items-serialize entries (assign signature info m) v.1)

    callback_items-All :
        (m : Map CallbackInfo)
        → IsSorted m
        → All (λ e. IsCallback e.0 e.1) m
        → callback_items lib (serialize_callbacks lib m) [] ≡ m
    callback_items-All m sorted v =
        callback_items-serialize m [] v ∙ update_all-append _ (λ k w. refl) m [] sorted

    parse_object-root_members :
        (s : ManifestSummary) (members : Map Value)
        → IsValid s
        → HasMembers lib (root_members lib s) members
        → parse_object lib members ≡ s
    unfolding parse_object root_members find equal
    parse_object-root_members s members v h =
        let functions =
          direction_members lib (serialize_functions lib s.functions.to_host)
            (serialize_functions lib s.functions.to_guest) in
        let missing =
          direction_members lib (text_items lib s.missing_functions.to_host)
            (text_items lib s.missing_functions.to_guest) in
        let (fs, f) = object_named lib doc functions (refl, (refl, tt)) (omega arith) in
        let (ns, n) = object_named lib doc missing (refl, (refl, tt)) (omega arith) in
        let to_host =
          function_field-serialize fs (codes "GuestToHost") s.functions.to_host
            (f.2 (codes "GuestToHost")) v.to_host in
        let to_guest =
          function_field-serialize fs (codes "HostToGuest") s.functions.to_guest
            (f.2 (codes "HostToGuest")) v.to_guest in
        let missing_to_host =
          set_field-text_items lib doc ns (codes "GuestToHost") s.missing_functions.to_host
            (n.2 (codes "GuestToHost")) v.missing_to_host.sorted v.missing_to_host.names in
        let missing_to_guest =
          set_field-text_items lib doc ns (codes "HostToGuest") s.missing_functions.to_guest
            (n.2 (codes "HostToGuest")) v.missing_to_guest.sorted v.missing_to_guest.names in
        rw
          (
            parse_object,
            h.2 (codes "fileName"),
            doc.string_lem s.file_name v.file_text,
            h.2 (codes "functions"),
            f.0,
            to_host,
            to_guest,
            h.2 (codes "missingFunctions"),
            n.0,
            missing_to_host,
            missing_to_guest,
            h.2 (codes "callbacks"),
            doc.array_lem (serialize_callbacks lib s.callbacks),
            callback_items-All s.callbacks v.callbacks_sorted v.callbacks,
          )
          refl

    -- A manifest summary whose sets and maps are in order, whose callbacks stand under their
    -- signatures, and whose texts are UTF-8 is read back by loadFromJson from what saveAsJson
    -- writes, whatever it is read into.
    pub load_from_json-save_as_json :
        (s before : ManifestSummary) {text : Text}
        → IsValid s
        → save_as_json lib none false s ≡ value text
        → load_from_json lib (value text) before ≡ (value tt, s)
    unfolding load_from_json save_as_json root_members find equal
    load_from_json-save_as_json s before {text = text} v h =
        let (members, got) =
          object_named lib doc (root_members lib s) (refl, (refl, (refl, (refl, tt))))
            (omega arith) in
        let written : print (object (root_members lib s)) ≡ text = cc h in
        rw (← written, load_from_json, doc.parse-print (object (root_members lib s)), got.0)
          (ap (λ r. (value tt, r)) (parse_object-root_members s members v got))
