-- ===== src/LlvmJson/Trees.antt =====
-- A library of JSON values that are trees, and whose documents are the values themselves: it does
-- what the documentation of llvm::json says.
use lorelei.Base.{◌≡◌, refl, ap, true, List, [], ◌∷◌, Option, none, some, Bytes}
use lorelei.Ordered.{Map}
use lorelei.LlvmJson.{LlvmJson, value, Documented}

mutual
  pub data Tree : Type 0 where
    text : Bytes → Tree
    items : Trees → Tree
    fields : Fields → Tree

  pub data Trees : Type 0 where
    nil : Trees
    cons : Tree → Trees → Trees

  pub data Fields : Type 0 where
    end : Fields
    field : Bytes → Tree → Fields → Fields

abbrev to_trees : List Tree → Trees
to_trees [] = nil
to_trees (t ∷ ts) = cons t (to_trees ts)

abbrev of_trees : Trees → List Tree
of_trees nil = []
of_trees (cons t ts) = t ∷ of_trees ts

abbrev to_fields : Map Tree → Fields
to_fields [] = end
to_fields ((k, t) ∷ m) = field k t (to_fields m)

abbrev of_fields : Fields → Map Tree
of_fields end = []
of_fields (field k t m) = (k, t) ∷ of_fields m

of_trees-to_trees : (ts : List Tree) → of_trees (to_trees ts) ≡ ts
of_trees-to_trees [] = refl
of_trees-to_trees (t ∷ ts) = ap (◌∷◌ t) (of_trees-to_trees ts)

of_fields-to_fields : (m : Map Tree) → of_fields (to_fields m) ≡ m
of_fields-to_fields [] = refl
of_fields-to_fields ((k, t) ∷ m) = ap (◌∷◌ (k, t)) (of_fields-to_fields m)

abbrev as_text : Tree → Option Bytes
as_text (text s) = some s
as_text (items ts) = none
as_text (fields m) = none

abbrev as_items : Tree → Option (List Tree)
as_items (text s) = none
as_items (items ts) = some (of_trees ts)
as_items (fields m) = none

abbrev as_fields : Tree → Option (Map Tree)
as_fields (text s) = none
as_fields (items ts) = none
as_fields (fields m) = some (of_fields m)

abbrev pub tree_json : LlvmJson
tree_json = record {
  Value = Tree;
  Text = Tree;
  parse = λ t. value t;
  print = λ t. t;
  string = text;
  array = λ ts. items (to_trees ts);
  object = λ m. fields (to_fields m);
  get_as_string = as_text;
  get_as_array = as_items;
  get_as_object = as_fields;
  is_utf8 = λ s. true;
}

pub tree_json-Documented : Documented tree_json
tree_json-Documented = record {
  parse-print = λ v. refl;
  ascii_lem = λ s a. refl;
  string_lem = λ s u. refl;
  array_lem = λ ts. ap some (of_trees-to_trees ts);
  object_lem = λ set d u. (set, (ap some (of_fields-to_fields set), d, λ k. refl));
}
