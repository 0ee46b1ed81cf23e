-- ===== src/LlvmJson/Members.antt =====
-- Objects whose members are all texts, and arrays of texts: how they are written and read.
use lorelei.Base.{
  ◌≡◌, ◌<◌, refl, ◌∙◌, ap, true, List, [], ◌∷◌, none, some, Bytes, equal_iff, ◌>>=?◌, All, arith,
  Option-cases, inl, inr,
}
use lorelei.Ordered.{Map, find, insert, Set, add}
use lorelei.Ordered.Laws.{IsSorted, find-Before, find-ext}
use lorelei.Ordered.Fill.{
  insert_all, update_all, update_all-append, find-insert_all, insert_all-IsSorted,
}
use lorelei.LlvmJson.{LlvmJson, Distinct, Documented, HasMembers, get_array}

module _ (lib : LlvmJson) where
  open lib use {Value, string, array, get_as_string, is_utf8}

  -- `for (auto &v : array) if (auto str = v.getAsString()) set.insert(str->str());`
  unfoldable pub add_strings : List Value → Set → Set
  add_strings [] s = s
  add_strings (v ∷ vs) s = add_strings vs (elim (get_as_string v) [ none ↦ s | some t ↦ add t s ])

  -- A set from an array of the object, empty if there is none.
  unfoldable pub set_field : Map Value → Bytes → Set
  unfolding add_strings
  set_field obj key = elim (get_array lib obj key) [ none ↦ [] | some vs ↦ add_strings vs [] ]

  -- `for (auto &m : object) if (auto str = m.second.getAsString()) map.insert({m.first, str});`
  unfoldable pub insert_strings : Map Value → Map Bytes → Map Bytes
  insert_strings [] s = s
  insert_strings ((k, v) ∷ ms) s =
      insert_strings ms (elim (get_as_string v) [ none ↦ s | some t ↦ insert k t s ])

  -- the members of an object for a map of texts
  unfoldable pub text_members : Map Bytes → Map Value
  text_members [] = []
  text_members ((k, t) ∷ m) = (k, string t) ∷ text_members m

  abbrev pub Utf8Keys {ℓ} : {V : Type ℓ} → Map V → Type 0
  Utf8Keys m = All (λ e. is_utf8 e.0 ≡ true) m

  abbrev pub Utf8Values : Map Bytes → Type 0
  Utf8Values m = All (λ e. is_utf8 e.1 ≡ true) m

  -- the texts among the members
  texts_of : Map Value → Map Bytes
  texts_of [] = []
  texts_of ((k, v) ∷ ms) = elim (get_as_string v) [
    | none ↦ texts_of ms
    | some t ↦ (k, t) ∷ texts_of ms
  ]

  insert_strings-texts_of :
      (ms : Map Value) (s : Map Bytes) → insert_strings ms s ≡ insert_all (texts_of ms) s
  unfolding insert_strings texts_of update_all
  insert_strings-texts_of [] s = refl
  insert_strings-texts_of ((k, v) ∷ ms) s = elim (Option-cases (get_as_string v)) [
    | inl e ↦ rw (e, texts_of) (insert_strings-texts_of ms s)
    | inr (t, e) ↦ rw (e, texts_of) (insert_strings-texts_of ms (insert k t s))
  ]

  find-texts_of :
      (k : Bytes) (ms : Map Value)
      → Distinct ms
      → find k (texts_of ms) ≡ (find k ms >>=? get_as_string)
  unfolding texts_of find
  find-texts_of k [] d = refl
  find-texts_of k ((j, v) ∷ ms) d = ground (arith, equal_iff k j, find-texts_of k ms)

  pub find-text_members :
      (k : Bytes) (m : Map Bytes)
      → find k (text_members m) ≡ elim (find k m) [ none ↦ none | some t ↦ some (string t) ]
  unfolding text_members find
  find-text_members k [] = refl
  find-text_members k ((j, t) ∷ m) = ground (arith, find-text_members k m)

  text_members-Distinct : (m : Map Bytes) → IsSorted m → Distinct (text_members m)
  unfolding text_members
  text_members-Distinct [] s = tt
  text_members-Distinct ((k, t) ∷ m) s =
      (rw (find-text_members k m, find-Before k m s.0) refl, text_members-Distinct m s.1)

  text_members-Utf8Keys : (m : Map Bytes) → Utf8Keys m → Utf8Keys (text_members m)
  unfolding text_members
  text_members-Utf8Keys [] u = tt
  text_members-Utf8Keys ((k, t) ∷ m) u = (u.0, text_members-Utf8Keys m u.1)

  find-string :
      Documented lib
      → (k : Bytes) (m : Map Bytes) → Utf8Values m
      → (find k (text_members m) >>=? get_as_string) ≡ find k m
  unfolding text_members find
  find-string doc k [] u = refl
  find-string doc k ((j, t) ∷ m) u = ground (arith, doc.string_lem t u.0, find-string doc k m u.1)

  -- A map of texts that is written as an object is read back, whatever the order of the members.
  pub insert_strings-text_members :
      Documented lib
      → (m : Map Bytes) → IsSorted m
      → Utf8Keys m
      → Utf8Values m
      → (members : Map Value) × HasMembers lib (text_members m) members
        × (insert_strings members [] ≡ m)
  unfolding find
  insert_strings-text_members doc m s u w =
      let (ms, h) =
        doc.object_lem (text_members m) (text_members-Distinct m s) (text_members-Utf8Keys m u) in
      (
        ms,
        h,
        insert_strings-texts_of ms []
            ∙ find-ext (insert_all (texts_of ms) []) m (insert_all-IsSorted (texts_of ms) [] tt) s
                (λ k.
                  find-insert_all k (texts_of ms) [] tt
                  ∙ find-texts_of k ms h.1
                  ∙ ap (λ o. o >>=? get_as_string) (h.2 k)
                  ∙ find-string doc k m w),
      )

  -- the texts of a set as an array
  unfoldable pub text_items : Set → List Value
  text_items [] = []
  text_items ((k, u) ∷ s) = string k ∷ text_items s

  pub add_strings-text_items :
      Documented lib → (s t : Set) → Utf8Keys s → add_strings (text_items s) t ≡ insert_all s t
  unfolding add_strings text_items update_all
  add_strings-text_items doc [] t u = refl
  add_strings-text_items doc ((k, v) ∷ s) t u =
      rw (add_strings, doc.string_lem k u.0) (add_strings-text_items doc s (add k t) u.1)

  pub set_field-text_items :
      Documented lib
      → (members : Map Value) (key : Bytes) (s : Set)
      → find key members ≡ some (array (text_items s))
      → IsSorted s
      → Utf8Keys s
      → set_field members key ≡ s
  unfolding set_field
  set_field-text_items doc members key s h sorted u =
      rw (set_field, h, doc.array_lem (text_items s))
        (add_strings-text_items doc s [] u ∙ update_all-append _ (λ k v. refl) s [] sorted)

  Utf8-ascii {ℓ} :
      {V : Type ℓ} → Documented lib → (m : Map V) → All (λ e. All (λ c. c < 128) e.0) m → Utf8Keys m
  Utf8-ascii doc [] a = tt
  Utf8-ascii doc ((k, v) ∷ m) a = (doc.ascii_lem k a.0, Utf8-ascii doc m a.1)

  -- An object whose members have ASCII names that differ.
  pub object_named :
      Documented lib
      → (set : Map Value) → Distinct set
      → All (λ e. All (λ c. c < 128) e.0) set
      → (members : Map Value) × HasMembers lib set members
  object_named doc set d a = doc.object_lem set d (Utf8-ascii doc set a)
