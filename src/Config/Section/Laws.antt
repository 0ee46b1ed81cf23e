-- ===== src/Config/Section/Laws.antt =====
-- A section is a map from keys to values that keeps the order of the first writes.
use lorelei.Base.{
  ℕ, zero, suc, ◌≢◌, ◌≡◌, refl, sym, ap, ◌∙◌, List, [], ◌∷◌, ◌++◌, map, Option, none, some, Bytes,
  length, get_elem?, set, equal, equal_iff, if◌then◌else◌, ok, Option-cases, inl, inr, arith,
}
use mathlib.Core.Option.{some-injective}
use lorelei.Config.Section.{Section, new_section, get_string, add_key_value, keys}
use lorelei.Index.{lookup, assign, at-get_elem?, Indexed, Indexed-nil, Indexed-concat}

-- The key index holds the position of every key.
abbrev pub IsValid : Section → Type 0
IsValid s = Indexed (keys s) s.key_index

pub new_section-IsValid : (n : Bytes) → IsValid (new_section n)
new_section-IsValid n = Indexed-nil

-- The value that stands with the first pair of the key.
pub view : List (Bytes × Bytes) → Bytes → Option Bytes
view [] key = none
view ((k, v) ∷ kvs) key = if equal k key then some v else view kvs key

map-set :
    (kvs : List (Bytes × Bytes)) (i : ℕ) (k v w : Bytes)
    → get_elem? kvs i ≡ some (k, v)
    → map (λ kv. kv.0) (set kvs i (k, w)) ≡ map (λ kv. kv.0) kvs
map-set [] i k v w h = cc
map-set ((a, b) ∷ kvs) zero k v w h =
    let e : a ≡ k = ap (λ (kv : Bytes × Bytes). kv.0) (some-injective _ _ h) in
    ap (λ x. x ∷ map (λ kv. kv.0) kvs) (sym e)
map-set ((a, b) ∷ kvs) (suc i) k v w h = ap (◌∷◌ a) (map-set kvs i k v w h)

get_elem?-map :
    (kvs : List (Bytes × Bytes)) (i : ℕ) (k : Bytes)
    → get_elem? (map (λ kv. kv.0) kvs) i ≡ some k
    → (v : Bytes) × (get_elem? kvs i ≡ some (k, v))
get_elem?-map [] i k h = cc
get_elem?-map ((a, b) ∷ kvs) zero k h = (b, ap (λ (x : Bytes). some (x, b)) (some-injective _ _ h))
get_elem?-map ((a, b) ∷ kvs) (suc i) k h = get_elem?-map kvs i k h

length-map : (kvs : List (Bytes × Bytes)) → length (map (λ kv. kv.0) kvs) ≡ length kvs
length-map [] = refl
length-map (x ∷ kvs) = ap (λ n. suc n) (length-map kvs)

map-concat :
    (kvs : List (Bytes × Bytes)) (kv : Bytes × Bytes)
    → map (λ x. x.0) (kvs ++ kv ∷ []) ≡ map (λ x. x.0) kvs ++ kv.0 ∷ []
map-concat [] kv = refl
map-concat (x ∷ kvs) kv = ap (◌∷◌ x.0) (map-concat kvs kv)

view-concat :
    (kvs : List (Bytes × Bytes)) (k v j : Bytes)
    → view kvs k ≡ none
    → view (kvs ++ (k, v) ∷ []) j ≡ (if equal k j then some v else view kvs j)
unfolding view
view-concat [] k v j h = refl
view-concat ((a, b) ∷ kvs) k v j h =
    ground (arith, view-concat kvs k v j, equal_iff a j, equal_iff a k, equal_iff k j)

view-none :
    (kvs : List (Bytes × Bytes)) (k : Bytes)
    → ((i : ℕ) → get_elem? (map (λ kv. kv.0) kvs) i ≢ some k)
    → view kvs k ≡ none
unfolding view
view-none [] k h = refl
view-none ((a, b) ∷ kvs) k h = ground (arith, equal_iff a k, h 0, view-none kvs k (λ i. h (suc i)))

-- The key stands at one position only.
abbrev OnlyAt : List (Bytes × Bytes) → Bytes → ℕ → Type 0
OnlyAt kvs k i = (j : ℕ) → get_elem? (map (λ kv. kv.0) kvs) j ≡ some k → j ≡ i

OnlyAt-tail :
    (kv : Bytes × Bytes) (kvs : List (Bytes × Bytes)) (k : Bytes) (i : ℕ)
    → OnlyAt (kv ∷ kvs) k (suc i)
    → (kv.0 ≢ k) × OnlyAt kvs k i
OnlyAt-tail kv kvs k i h =
    (λ e. absurd (omega (arith, h 0 (ap some e))), λ j e. omega (arith, h (suc j) e))

view-at :
    (kvs : List (Bytes × Bytes)) (i : ℕ) (k v : Bytes)
    → get_elem? kvs i ≡ some (k, v)
    → OnlyAt kvs k i
    → view kvs k ≡ some v
unfolding view
view-at [] i k v h only = cc
view-at ((a, b) ∷ kvs) zero k v h only = ground (arith, equal_iff a k)
view-at ((a, b) ∷ kvs) (suc i) k v h only =
    let (ne, rest) = OnlyAt-tail (a, b) kvs k i only in
    ground (arith, equal_iff a k, view-at kvs i k v h rest)

view-set :
    (kvs : List (Bytes × Bytes)) (i : ℕ) (k v w j : Bytes)
    → get_elem? kvs i ≡ some (k, w)
    → OnlyAt kvs k i
    → view (set kvs i (k, v)) j ≡ (if equal k j then some v else view kvs j)
unfolding view
view-set [] i k v w j h only = cc
view-set ((a, b) ∷ kvs) zero k v w j h only = ground (arith, equal_iff a j, equal_iff k j)
view-set ((a, b) ∷ kvs) (suc i) k v w j h only =
    let (ne, rest) = OnlyAt-tail (a, b) kvs k i only in
    ground (arith, equal_iff a j, equal_iff k j, view-set kvs i k v w j h rest)

-- What the calls of a valid section see of a key.
record Position (s : Section) (key : Bytes) (i : ℕ) : Type 0 where
  value : Bytes
  stands : get_elem? s.key_values i ≡ some (key, value)
  only : OnlyAt s.key_values key i

position :
    (s : Section) (key : Bytes) (i : ℕ)
    → IsValid s
    → lookup key s.key_index ≡ some i
    → Position s key i
position s key i valid e =
    let (v, at_i) = get_elem?-map s.key_values i key ((valid key i).0 e) in
    record {
      value = v;
      stands = at_i;
      only = λ j k. sym (some-injective _ _ (sym e ∙ (valid key j).1 k));
    }

absent :
    (s : Section) (key : Bytes)
    → IsValid s
    → lookup key s.key_index ≡ none
    → view s.key_values key ≡ none
absent s key valid e = view-none s.key_values key (λ i k. cc (e, (valid key i).1 k))

-- In a valid section getString gives the value that stands with the key among the pairs, if any,
-- and goes out of no bounds.
pub get_string-view :
    (s : Section) (key : Bytes) → IsValid s → get_string s key ≡ ok (view s.key_values key)
unfolding get_string
get_string-view s key valid = elim (Option-cases (lookup key s.key_index)) [
  | inl e ↦ rw (e, get_string, absent s key valid e)
  | inr (i, e) ↦
      let p = position s key i valid e in
      rw (
        e,
        get_string,
        at-get_elem? s.key_values i p.stands,
        view-at s.key_values i key p.value p.stands p.only,
      )
]

-- What `addKeyValue` makes of a section: the key gets the value and every other key keeps its own;
-- a known key keeps its place and a new one stands behind the others.
pub record Added (s : Section) (key value : Bytes) (t : Section) : Type 0 where
  pub reads :
      (j : Bytes) → view t.key_values j ≡ (if equal key j then some value else view s.key_values j)
  pub order : keys t ≡ elim (view s.key_values key) [ none ↦ keys s ++ key ∷ [] | some v ↦ keys s ]
  pub same_name : t.name ≡ s.name
  pub valid : IsValid t

-- In a valid section addKeyValue returns: the key gets the value and every other key keeps its
-- own, a known key keeps its place and a new one stands behind the others, and the section is
-- valid.
pub add_key_value-Added :
    (s : Section) (key value : Bytes)
    → IsValid s
    → (t : Section) × (add_key_value s key value ≡ ok t) × Added s key value t
unfolding add_key_value
add_key_value-Added s key value valid = elim (Option-cases (lookup key s.key_index)) [
  | inl e ↦
      let gone = absent s key valid e in
      (
        record s {
          key_values = s.key_values ++ (key, value) ∷ [];
          key_index = assign key (length s.key_values) s.key_index;
        },
        rw (e, add_key_value),
        record {
          reads = λ j. view-concat s.key_values key value j gone;
          order = rw gone (map-concat s.key_values (key, value));
          same_name = refl;
          valid =
              rw (map-concat, ← length-map s.key_values)
                (Indexed-concat (keys s) s.key_index key valid e);
        },
      )
  | inr (i, e) ↦
      let p = position s key i valid e in
      let same = map-set s.key_values i key p.value value p.stands in
      (
        record s { key_values = set s.key_values i (key, value) },
        rw (e, add_key_value, at-get_elem? s.key_values i p.stands),
        record {
          reads = λ j. view-set s.key_values i key value p.value j p.stands p.only;
          order = rw (view-at s.key_values i key p.value p.stands p.only) same;
          same_name = refl;
          valid = rw same valid;
        },
      )
]
