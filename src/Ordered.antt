-- ===== src/Ordered.antt =====
-- `std::map<std::string, V>` and `std::set<std::string>`: lists of entries in the order of their
-- keys. An update goes to the place of the key. A set is a map to the unit type.
pub mod Order
pub mod Laws
pub mod Fill
use lorelei.Base.{
  Bool, true, false, List, [], ◌∷◌, Option, none, some, Bytes, equal, if◌then◌else◌, map,
}
use lorelei.Ordered.Order.{less}

abbrev pub Map {ℓ} : Type ℓ → Type ℓ
Map V = List (Bytes × V)

module _ {ℓ} {V : Type ℓ} where
  -- `m.find(key)`
  unfoldable pub find : Bytes → Map V → Option V
  find k [] = none
  find k ((j, v) ∷ m) = if equal k j then some v else find k m

  -- The entry of the key is made from what is there, if anything.
  unfoldable pub update : Bytes → (Option V → V) → Map V → Map V
  update k f [] = (k, f none) ∷ []
  update k f ((j, v) ∷ m) =
      let later = update k f m in
      if less k j
      then (k, f none) ∷ (j, v) ∷ m
      else if less j k
      then (j, v) ∷ later
      else (j, f (some v)) ∷ m

  -- `m[key] = v`
  abbrev pub assign : Bytes → V → Map V → Map V
  assign k v = update k (λ _. v)

  -- an entry that is there stays
  abbrev pub keep_old : Bytes → V → Option V → V
  keep_old k v none = v
  keep_old k v (some w) = w

  -- `m.insert({key, v})`, `m.emplace(key, v)`
  abbrev pub insert : Bytes → V → Map V → Map V
  insert k v = update k (keep_old k v)

  -- the keys in the order of iteration
  abbrev pub keys : Map V → List Bytes
  keys m = map (λ e. e.0) m

abbrev pub Set : Type 0
Set = Map (Unit {0})

-- `s.insert(key)`
abbrev pub add : Bytes → Set → Set
add k = insert k tt
