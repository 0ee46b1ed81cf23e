-- ===== src/Hlr/Statistics/RoundTrip.antt =====
-- What `saveAsJson` writes, `loadFromJson` reads back (src/tools/HLR/Utils/SourceStatistics.cpp).
use lorelei.Base.{
  ◌≡◌, refl, ◌∙◌, ap, true, false, [], ◌∷◌, none, Bytes, codes, is_nil, equal, All, arith,
}
use lorelei.Ordered.{Map, find, insert}
use lorelei.Ordered.Laws.{IsSorted}
use lorelei.Ordered.Fill.{update_all, insert_all, update_all-append}
use lorelei.LlvmJson.{LlvmJson, value, Documented, HasMembers}
use lorelei.LlvmJson.Members.{
  Utf8Keys, Utf8Values, text_members, insert_strings-text_members, set_field-text_items,
  object_named,
}
use lorelei.Hlr.Statistics.{
  FunctionDecayGuardData, SourceStatistics, decay_item, decay_items, decay_object, decay_array,
  parse_object, root_members, load_from_json, save_as_json,
}

module _ (lib : LlvmJson) where
  open lib use {Value, Text, array, object, string, get_as_object, get_as_array, is_utf8}

  pub record IsGuard (entry : FunctionDecayGuardData) : Type 0 where
    pub sorted : IsSorted entry.locations
    pub any : is_nil entry.locations ≡ false
    pub key_texts : Utf8Keys lib entry.locations
    pub value_texts : Utf8Values lib entry.locations

  -- Sets and maps in order, each guard with a location, and texts that are UTF-8.
  pub record IsValid (stat : SourceStatistics) : Type 0 where
    pub files_sorted : IsSorted stat.files_need_patch
    pub files_texts : Utf8Keys lib stat.files_need_patch
    pub signatures_sorted : IsSorted stat.callback_check_guard_signatures
    pub signatures_texts : Utf8Keys lib stat.callback_check_guard_signatures
    pub guards_sorted : IsSorted stat.function_decay_guard_stats
    pub guards_texts : Utf8Keys lib stat.function_decay_guard_stats
    pub guards : All (λ e. IsGuard e.1) stat.function_decay_guard_stats

  module _ (doc : Documented lib) where
    decay_item-decay_object :
        (signature : Bytes) (entry : FunctionDecayGuardData) (stats : Map FunctionDecayGuardData)
        → is_utf8 signature ≡ true
        → IsGuard entry
        → decay_item lib (decay_object lib signature entry) stats ≡ insert signature entry stats
    unfolding decay_item decay_object find equal
    decay_item-decay_object signature entry stats u g =
        let (inner, got, back) =
          insert_strings-text_members lib doc entry.locations g.sorted g.key_texts g.value_texts in
        let (ms, outer) =
          object_named lib doc
            ((codes "signature", string signature)
              ∷ (codes "locations", object (text_members lib entry.locations))
              ∷ [])
            (refl, (refl, tt)) (omega arith) in
        rw
          (
            decay_item,
            decay_object,
            outer.0,
            outer.2 (codes "signature"),
            doc.string_lem signature u,
            outer.2 (codes "locations"),
            got.0,
            back,
            g.any,
          )
          refl

    decay_items-decay_array :
        (entries stats : Map FunctionDecayGuardData)
        → Utf8Keys lib entries
        → All (λ e. IsGuard e.1) entries
        → decay_items lib (decay_array lib entries) stats ≡ insert_all entries stats
    unfolding decay_items decay_array update_all
    decay_items-decay_array [] stats u g = refl
    decay_items-decay_array ((signature, entry) ∷ entries) stats u g =
        rw (decay_items, decay_item-decay_object signature entry stats u.0 g.0)
          (decay_items-decay_array entries (insert signature entry stats) u.1 g.1)

    parse_object-root_members :
        (stat : SourceStatistics) (members : Map Value)
        → IsValid stat
        → HasMembers lib (root_members lib stat) members
        → parse_object lib members ≡ stat
    unfolding parse_object root_members find equal
    parse_object-root_members stat members v h =
        let files =
          set_field-text_items lib doc members (codes "filesNeedPatch") stat.files_need_patch
            (h.2 (codes "filesNeedPatch")) v.files_sorted v.files_texts in
        let signatures =
          set_field-text_items lib doc members (codes "callbackCheckGuardSignatures")
            stat.callback_check_guard_signatures (h.2 (codes "callbackCheckGuardSignatures"))
            v.signatures_sorted v.signatures_texts in
        let guards =
          decay_items-decay_array stat.function_decay_guard_stats [] v.guards_texts v.guards
          ∙ update_all-append _ (λ k w. refl) stat.function_decay_guard_stats [] v.guards_sorted in
        rw
          (
            parse_object,
            files,
            signatures,
            h.2 (codes "functionDecayGuardStats"),
            doc.array_lem (decay_array lib stat.function_decay_guard_stats),
            guards,
          )
          refl

    -- Source statistics whose sets and maps are in order, whose decay guards have a location
    -- each, and whose texts are UTF-8 are read back by loadFromJson from what saveAsJson writes,
    -- whatever they are read into.
    pub load_from_json-saved :
        (stat before : SourceStatistics) {text : Text}
        → IsValid stat
        → save_as_json lib none false stat ≡ value text
        → load_from_json lib (value text) before ≡ (value tt, stat)
    unfolding load_from_json save_as_json root_members find equal
    load_from_json-saved stat before {text = text} v h =
        let (members, got) =
          object_named lib doc (root_members lib stat) (refl, (refl, (refl, tt))) (omega arith) in
        let written : lib.print (object (root_members lib stat)) ≡ text = cc h in
        rw (← written, load_from_json, doc.parse-print (object (root_members lib stat)), got.0)
          (ap (λ s. (value tt, s)) (parse_object-root_members stat members v got))
