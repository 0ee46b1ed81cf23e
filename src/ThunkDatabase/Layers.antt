-- ===== src/ThunkDatabase/Layers.antt =====
-- `loadJsonDatabase` of src/libs/DLCall/ThunkDatabase.cpp, item by item: it returns, and without
-- overwriting it adds entries at the back and does nothing else.
use lorelei.Base.{
  ◌≡◌, refl, ap, ◌∙◌, sym, Bool, false, not, ◌&&◌, List, [], ◌∷◌, ◌++◌, Option, none, some, Bytes,
  codes, is_nil, is_some, Run, ◌>>=◌, Gives, Gives->>=, Gives-ok, append-nil, append_assoc, inl,
  inr, Option-cases, Bool-cases,
}
use lorelei.Index.{lookup}
use lorelei.Str.Varexp.Total.{varexp-Ends}
use lorelei.ThunkDatabase.{ThunkDatabase, upsert_forward}
use lorelei.ThunkDatabase.Json.{
  JsonLibrary, Vars, value_of, path_field, forward_object, forward_item, reversed_item, each_item,
  array_field, load_json_database, json_string,
}
use lorelei.ThunkDatabase.Entries.{Grows, IsIndexed, upsert_forward-Upserted}

-- What a part of a load does: nothing but adding at the back, when it does not overwrite.
pub record Layered (overwrite : Bool) (db db' : ThunkDatabase) : Type 0 where
  pub forward_grows : overwrite ≡ false → Grows db.forward_thunks db'.forward_thunks
  pub reversed_grows : Grows db.reversed_thunks db'.reversed_thunks
  pub valid : IsIndexed db'

Grows-refl {ℓ} : {A : Type ℓ} (xs : List A) → Grows xs xs
Grows-refl xs = ([], sym (append-nil xs))

Grows-trans {ℓ} : {A : Type ℓ} (xs ys zs : List A) → Grows xs ys → Grows ys zs → Grows xs zs
Grows-trans xs ys zs (m, e) (n, f) = (m ++ n, f ∙ ap (λ l. l ++ n) e ∙ append_assoc xs m n)

Layered-refl : (o : Bool) (db : ThunkDatabase) → IsIndexed db → Layered o db db
Layered-refl o db v = record {
  forward_grows = λ h. Grows-refl db.forward_thunks;
  reversed_grows = Grows-refl db.reversed_thunks;
  valid = v;
}

Layered-trans : (o : Bool) (a b c : ThunkDatabase) → Layered o a b → Layered o b c → Layered o a c
Layered-trans o a b c h k = record {
  forward_grows = λ e.
      Grows-trans a.forward_thunks b.forward_thunks c.forward_thunks (h.forward_grows e)
        (k.forward_grows e);
  reversed_grows =
      Grows-trans a.reversed_thunks b.reversed_thunks c.reversed_thunks h.reversed_grows
        k.reversed_grows;
  valid = k.valid;
}

upsert-Layered :
    (db : ThunkDatabase) (name : Bytes) (alias : List Bytes) (guest host library : Bytes) (o : Bool)
    → IsIndexed db
    → Gives (upsert_forward db name alias guest host library o) (Layered o db)
upsert-Layered db name alias guest host library o v =
    let (db', e, u) =
      Gives-ok _ (upsert_forward db name alias guest host library o)
        (upsert_forward-Upserted db name alias guest host library o v) in
    rw e (record {
      forward_grows = u.grows;
      reversed_grows = rw u.reversed_same (Grows-refl db.reversed_thunks);
      valid = u.valid;
    })

after_path :
    (Q : ThunkDatabase → Type 0) (m : Run (Option Bytes)) (f : Option Bytes → Run ThunkDatabase)
    → Gives m (λ r. Unit)
    → ((r : Option Bytes) → Gives (f r) Q)
    → Gives (m >>= f) Q
after_path Q m f h k = Gives->>= (λ r. Unit) Q m f h (λ r u. k r)

module _ (lib : JsonLibrary) where
  open lib use {Json, parse, is_string, is_array, is_object, string_value, array_items, field}

  path_field-Gives :
      (vars : Vars) (obj : Json) (key : Bytes) (default : Option Bytes)
      → Gives (path_field lib vars obj key default) (λ r. Unit)
  unfolding path_field
  path_field-Gives vars obj key default = elim (Option-cases (field obj key)) [
    | inl e ↦ rw (e, path_field) tt
    | inr (x, e) ↦ elim (Option-cases (json_string lib obj key)) [
      | inl f ↦ rw (e, f, path_field) tt
      | inr (s, f) ↦ let (r, g) = varexp-Ends s (value_of vars) in rw (e, f, path_field, g) tt
    ]
  ]

  forward_object-Layered :
      (vars : Vars) (o : Bool) (db : ThunkDatabase) (obj : Json)
      → IsIndexed db
      → Gives (forward_object lib vars o db obj) (Layered o db)
  unfolding forward_object
  forward_object-Layered vars o db obj v =
      elim (Option-cases (json_string lib obj (codes "name"))) [
        | inl e ↦ rw (e, forward_object) (Layered-refl o db v)
        | inr (name, e) ↦
            rw (e, forward_object)
              (after_path _ _ _ (path_field-Gives vars obj _ _) (elim [
                | none ↦ Layered-refl o db v
                | some guest ↦ after_path _ _ _ (path_field-Gives vars obj _ _) (elim [
                  | none ↦ Layered-refl o db v
                  | some host ↦ after_path _ _ _ (path_field-Gives vars obj _ _) (elim [
                    | none ↦ Layered-refl o db v
                    | some library ↦ upsert-Layered db name _ guest host library o v
                  ])
                ])
              ]))
      ]

  forward_item-Layered :
      (vars : Vars) (o : Bool) (db : ThunkDatabase) (item : Json)
      → IsIndexed db
      → Gives (forward_item lib vars o db item) (Layered o db)
  unfolding forward_item
  forward_item-Layered vars o db item v =
      let all_has_default =
        not (is_nil (value_of vars (codes "GTL_DIR")))
        && not (is_nil (value_of vars (codes "HTL_DIR"))) in
      elim (Bool-cases (is_string item)) [
        | inl e ↦ elim (Bool-cases (not (is_nil (string_value item)) && all_has_default)) [
          | inl f ↦ rw (e, f, forward_item) (upsert-Layered db _ [] _ _ _ o v)
          | inr f ↦ rw (e, f, forward_item) (Layered-refl o db v)
        ]
        | inr e ↦ elim (Bool-cases (not (is_object item))) [
          | inl f ↦ rw (e, f, forward_item) (Layered-refl o db v)
          | inr f ↦ rw (e, f, forward_item) (forward_object-Layered vars o db item v)
        ]
      ]

  reversed_item-Layered :
      (o : Bool) (db : ThunkDatabase) (item : Json)
      → IsIndexed db
      → Gives (reversed_item lib o db item) (Layered o db)
  unfolding reversed_item
  reversed_item-Layered o db item v =
      let same = Layered-refl o db v in
      elim (Bool-cases (not (is_object item))) [
        | inl e ↦ rw (e, reversed_item) same
        | inr e ↦ elim (Option-cases (json_string lib item (codes "name"))) [
          | inl f ↦ rw (e, f, reversed_item) same
          | inr (name, f) ↦ elim (Option-cases (json_string lib item (codes "fileName"))) [
            | inl g ↦ rw (e, f, g, reversed_item) same
            | inr (file_name, g) ↦
                elim (Bool-cases (not o && is_some (lookup name db.reversed_thunk_map))) [
                  | inl h ↦ rw (e, f, g, h, reversed_item) same
                  | inr h ↦
                      rw (e, f, g, h, reversed_item)
                        (record {
                          forward_grows = λ n. Grows-refl db.forward_thunks;
                          reversed_grows = (_, refl);
                          valid = v;
                        })
                ]
          ]
        ]
      ]

  each_item-Layered :
      (o : Bool) (step : ThunkDatabase → Json → Run ThunkDatabase) (items : List Json)
      (db : ThunkDatabase)
      → ((d : ThunkDatabase) (item : Json) → IsIndexed d → Gives (step d item) (Layered o d))
      → IsIndexed db
      → Gives (each_item lib step items db) (Layered o db)
  unfolding each_item
  each_item-Layered o step [] db each v = Layered-refl o db v
  each_item-Layered o step (item ∷ items) db each v =
      let (d, e, one) = Gives-ok _ (step db item) (each db item v) in
      let (d', f, more) =
        Gives-ok _ (each_item lib step items d) (each_item-Layered o step items d each one.valid) in
      rw (e, each_item, f) (Layered-trans o db d d' one more)

  pub load_json-Layered :
      (open_file : Bytes → Option Bytes) (path : Bytes) (vars : Vars) (o : Bool)
      (db : ThunkDatabase)
      → IsIndexed db
      → Gives (load_json_database lib open_file path vars o db) (λ r. Layered o db r.1)
  unfolding load_json_database
  load_json-Layered open_file path vars o db v =
      let same = Layered-refl o db v in
      elim (Option-cases (open_file path)) [
        | inl e ↦ rw (e, load_json_database) same
        | inr (text, e) ↦ elim (Option-cases (parse text)) [
          | inl f ↦ rw (e, f, load_json_database) same
          | inr (json, f) ↦ elim (Bool-cases (not (is_object json))) [
            | inl g ↦ rw (e, f, g, load_json_database) same
            | inr g ↦
                let forward = array_field lib json (codes "forwardThunks") in
                let reversed = array_field lib json (codes "reversedThunks") in
                let (d, h, one) = Gives-ok _ (each_item lib (forward_item lib vars o) forward db) (
                  each_item-Layered o (forward_item lib vars o) forward db
                    (forward_item-Layered vars o) v) in
                let (d', k, more) = Gives-ok _ (each_item lib (reversed_item lib o) reversed d) (
                  each_item-Layered o (reversed_item lib o) reversed d (reversed_item-Layered o)
                    one.valid) in
                rw (e, f, g, load_json_database, h, k) (Layered-trans o db d d' one more)
          ]
        ]
      ]
