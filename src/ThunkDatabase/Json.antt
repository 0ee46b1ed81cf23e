-- ===== src/ThunkDatabase/Json.antt =====
-- The JSON part of `ThunkDatabase` of src/libs/DLCall/ThunkDatabase.cpp: `jsonString`,
-- `jsonStringArray`, `loadJsonDatabase`, `load` and `loadPack`. The library json11 and the file
-- system are parameters.
use lorelei.Base.{
  Bool, true, false, not, ◌&&◌, List, [], ◌∷◌, ◌++◌, Option, none, some, Bytes, codes, is_nil,
  is_some, equal, if◌then◌else◌, Run, ok, ◌>>=◌,
}
use lorelei.Index.{lookup}
use lorelei.Str.Varexp.{varexp}
use lorelei.ThunkDatabase.{
  ThunkDatabase, empty, intern, intern_list, upsert_forward, rebuild_indexes, add_reversed,
}

-- What the code takes from json11: `Json::parse`, which fails with a text in `err`, the tests and
-- values of a node, and `object_items().find(key)`.
pub record JsonLibrary : Type 1 where
  pub Json : Type 0
  pub parse : Bytes → Option Json
  pub is_string : Json → Bool
  pub is_array : Json → Bool
  pub is_object : Json → Bool
  pub string_value : Json → Bytes
  pub array_items : Json → List Json
  pub field : Json → Bytes → Option Json

abbrev pub Vars : Type 0
Vars = Bytes → Option Bytes

-- `vars[key] = value`
abbrev pub assign_var : Vars → Bytes → Bytes → Vars
assign_var vars key value = λ k. if equal k key then some value else vars k

-- The value of a variable, empty if there is none.
abbrev pub value_of : Vars → Bytes → Bytes
value_of vars key = elim (vars key) [ none ↦ [] | some v ↦ v ]

module _ (lib : JsonLibrary) where
  open lib use {Json, parse, is_string, is_array, is_object, string_value, array_items, field}

  unfoldable pub json_string : Json → Bytes → Option Bytes
  json_string obj key = elim (field obj key) [
    | none ↦ none
    | some v ↦
        if not (is_string v)
        then none
        else if is_nil (string_value v)
        then none
        else some (string_value v)
  ]

  unfoldable pub string_items : List Json → List Bytes
  string_items [] = []
  string_items (item ∷ items) =
      let rest = string_items items in
      if is_string item && not (is_nil (string_value item)) then string_value item ∷ rest else rest

  unfoldable pub json_string_array : Json → Bytes → List Bytes
  json_string_array obj key = elim (field obj key) [
    | none ↦ []
    | some v ↦ if not (is_array v) then [] else string_items (array_items v)
  ]

  -- A path of a forward entry; the item is skipped when it is `none`.
  unfoldable pub path_field : Vars → Json → Bytes → Option Bytes → Run (Option Bytes)
  unfolding varexp
  path_field vars obj key default = elim (field obj key) [
    | none ↦ ok default
    | some v ↦ elim (json_string obj key) [
      | some val ↦ varexp val (value_of vars) >>= λ p. ok (some p)
      | none ↦ ok none
    ]
  ]

  abbrev pub guest_default : Vars → Bytes → Bytes
  guest_default vars name = ((value_of vars (codes "GTL_DIR") ++ b'/' ∷ []) ++ name) ++ codes ".so"

  abbrev pub host_default : Vars → Bytes → Bytes
  host_default vars name =
      ((value_of vars (codes "HTL_DIR") ++ b'/' ∷ []) ++ name) ++ codes "_HTL.so"

  -- none when the directory is not set
  abbrev pub unless_nil : Bytes → Bytes → Option Bytes
  unless_nil dir path = if is_nil dir then none else some path

  -- An item of "forwardThunks" that is an object.
  unfoldable pub forward_object : Vars → Bool → ThunkDatabase → Json → Run ThunkDatabase
  unfolding upsert_forward
  forward_object vars overwrite db obj = elim (json_string obj (codes "name")) [
    | none ↦ ok db
    | some name ↦
        path_field vars obj (codes "guestThunk")
          (unless_nil (value_of vars (codes "GTL_DIR")) (guest_default vars name))
        >>= elim [
          | none ↦ ok db
          | some guest ↦
              path_field vars obj (codes "hostThunk")
                (unless_nil (value_of vars (codes "HTL_DIR")) (host_default vars name))
              >>= elim [
                | none ↦ ok db
                | some host ↦
                    path_field vars obj (codes "hostLibrary") (some (name ++ codes ".so"))
                    >>= elim [
                      | none ↦ ok db
                      | some library ↦
                          upsert_forward db name (json_string_array obj (codes "alias")) guest host
                            library overwrite
                    ]
              ]
        ]
  ]

  -- An item of "forwardThunks".
  unfoldable pub forward_item : Vars → Bool → ThunkDatabase → Json → Run ThunkDatabase
  unfolding upsert_forward
  forward_item vars overwrite db item =
      if is_string item
      then (let name = string_value item in
          let all_has_default =
            not (is_nil (value_of vars (codes "GTL_DIR")))
            && not (is_nil (value_of vars (codes "HTL_DIR"))) in
          if not (is_nil name) && all_has_default
          then upsert_forward db name [] (guest_default vars name) (host_default vars name)
              (name ++ codes ".so") overwrite
          else ok db)
      else if not (is_object item)
      then ok db
      else forward_object vars overwrite db item

  -- An item of "reversedThunks".
  unfoldable pub reversed_item : Bool → ThunkDatabase → Json → Run ThunkDatabase
  reversed_item overwrite db item =
      if not (is_object item) then ok db else elim (json_string item (codes "name")) [
        | none ↦ ok db
        | some name ↦ elim (json_string item (codes "fileName")) [
          | none ↦ ok db
          | some file_name ↦
              if not overwrite && is_some (lookup name db.reversed_thunk_map)
              then ok db
              else ok (
                  add_reversed db (record {
                    name = intern name;
                    alias = intern_list (json_string_array item (codes "alias"));
                    file_name = intern file_name;
                    thunks = intern_list (json_string_array item (codes "thunks"));
                  }))
        ]
      ]

  unfoldable pub each_item :
      (ThunkDatabase → Json → Run ThunkDatabase) → List Json → ThunkDatabase → Run ThunkDatabase
  each_item step [] db = ok db
  each_item step (item ∷ items) db = step db item >>= λ db'. each_item step items db'

  -- The items of an array of the document, none if there is no such array.
  unfoldable pub array_field : Json → Bytes → List Json
  array_field doc key = elim (field doc key) [
    | none ↦ []
    | some v ↦ if is_array v then array_items v else []
  ]

  unfoldable pub load_json_database :
      (Bytes → Option Bytes) → Bytes → Vars → Bool → ThunkDatabase → Run (Bool × ThunkDatabase)
  load_json_database open_file path vars overwrite db = elim (open_file path) [
    | none ↦ ok (false, db)
    | some text ↦ elim (parse text) [
      | none ↦ ok (false, db)
      | some json ↦
          if not (is_object json)
          then ok (false, db)
          else (each_item (forward_item vars overwrite) (array_field json (codes "forwardThunks"))
                db
              >>= λ db'.
                  each_item (reversed_item overwrite) (array_field json (codes "reversedThunks"))
                    db'
                  >>= λ db''. ok (true, db''))
    ]
  ]

  -- `load` and `loadPack`
  unfoldable pub load :
      (Bytes → Option Bytes) → Bytes → Vars → ThunkDatabase → Run (Bool × ThunkDatabase)
  load open_file path vars db =
      load_json_database open_file path vars true empty >>= λ r. ok (r.0, rebuild_indexes r.1)

  unfoldable pub load_pack :
      (Bytes → Option Bytes)
      → Bytes
      → Bytes
      → Bytes
      → Vars
      → ThunkDatabase
      → Run (Bool × ThunkDatabase)
  load_pack open_file path guest_dir host_dir vars db =
      let pack_vars =
        assign_var (assign_var vars (codes "GTL_DIR") guest_dir) (codes "HTL_DIR") host_dir in
      load_json_database open_file path pack_vars false db >>= λ r. ok (r.0, rebuild_indexes r.1)
