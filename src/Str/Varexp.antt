-- ===== src/Str/Varexp.antt =====
-- `varexp_split`, `varexp_post` and `varexp` of src/libs/Support/StringExtras.cpp. A part is told by
-- its text; the position `i` is told by the rest of the text from there.
pub mod Parts
pub mod Template
pub mod Total
use lorelei.Base.{
  ℕ, zero, suc, ◌+◌, ◌-◌, Bool, true, false, ◌&&◌, List, [], ◌∷◌, ◌++◌, Option, none, some, Bytes,
  is_nil, length, ◌==◌, if◌then◌else◌, Run, ok, starved, ◌>>=◌,
}

pub data PartType : Type 0 where
  literal literal_with_dollar variable nested_variable : PartType

pub record Part : Type 0 where
  pub kind : PartType
  pub text : Bytes

-- The `while` over `j`: `body` is what lies between `start` and `j`. The result is `nested`, the
-- text without its closing brace, and what follows the brace; `none` is `braceCount != 0` at the end.
unfoldable pub scan : ℕ → Bool → Bytes → Bytes → Option (Bool × Bytes × Bytes)
scan count nested body [] = none
scan count nested body (c ∷ []) =
    if c == b'}' then (if count == 1 then some (nested, body, []) else none) else none
scan count nested body (c ∷ d ∷ cs) =
    let deeper = scan (count + 1) true (body ++ c ∷ d ∷ []) cs in
    let closed = scan (count - 1) nested (body ++ c ∷ []) (d ∷ cs) in
    let plain = scan count nested (body ++ c ∷ []) (d ∷ cs) in
    if c == b'$' && d == b'{'
    then deeper
    else if c == b'}'
    then (if count == 1 then some (nested, body, d ∷ cs) else closed)
    else plain

-- `if (buf.size > 0) result.push_back(buf)`
abbrev pub flush : List Part → Part → List Part
flush result buf = if is_nil buf.text then result else result ++ buf ∷ []

abbrev pub plain_buf : Part
plain_buf = record { kind = literal; text = [] }

abbrev pub var_type : Bool → PartType
var_type nested = if nested then nested_variable else variable

-- The outer loop. A round costs one unit of fuel.
unfoldable pub split_loop : ℕ → Part → Bytes → List Part → Run (Option (List Part))
split_loop zero buf rest result = starved
split_loop (suc fuel) buf [] result = ok (some (flush result buf))
split_loop (suc fuel) buf (c ∷ []) result =
    split_loop fuel (record buf { text = buf.text ++ c ∷ [] }) [] result
split_loop (suc fuel) buf (c ∷ d ∷ cs) result =
    let expand : Run (Option (List Part)) = elim (scan 1 false [] cs) [
      | none ↦ ok none
      | some r ↦
          split_loop fuel plain_buf r.2
            (flush result buf ++ record { kind = var_type r.0; text = r.1 } ∷ [])
    ] in
    let dollar =
      split_loop fuel (record { kind = literal_with_dollar; text = buf.text ++ c ∷ d ∷ [] }) cs
        result in
    let plain = split_loop fuel (record buf { text = buf.text ++ c ∷ [] }) (d ∷ cs) result in
    if c == b'$' then (if d == b'{' then expand else dollar) else plain

-- A round takes at least one byte.
unfoldable pub varexp_split : Bytes → Run (Option (List Part))
unfolding split_loop scan
varexp_split s = split_loop (suc (length s)) plain_buf s []

-- The result so far is what stands before the call.
unfoldable pub varexp_post : Bytes → Bytes
varexp_post [] = []
varexp_post (c ∷ []) = c ∷ []
varexp_post (c ∷ d ∷ cs) =
    let skip = varexp_post cs in
    let next = varexp_post (d ∷ cs) in if c == b'$' && d == b'$' then b'$' ∷ skip else c ∷ next

-- The `switch` over the type of a part; `again` is the recursive call of `varexp`.
unfoldable pub part_value : (Bytes → Run Bytes) → (Bytes → Bytes) → PartType → Bytes → Run Bytes
part_value again find literal t = ok t
part_value again find literal_with_dollar t = ok t
part_value again find variable t = ok (find t)
part_value again find nested_variable t = again t >>= λ name. ok (find name)

unfoldable pub expand_parts : (Bytes → Run Bytes) → (Bytes → Bytes) → List Part → Bytes → Run Bytes
unfolding part_value
expand_parts again find [] result = ok result
expand_parts again find (p ∷ ps) result =
    part_value again find p.kind p.text >>= λ t. expand_parts again find ps (result ++ t)

unfoldable pub varexp_fuel : ℕ → (Bytes → Bytes) → Bytes → Run Bytes
unfolding varexp_split expand_parts varexp_post
varexp_fuel zero find s = starved
varexp_fuel (suc fuel) find s = varexp_split s >>= elim [
  | none ↦ ok []
  | some parts ↦
      expand_parts (varexp_fuel fuel find) find parts [] >>= λ result. ok (varexp_post result)
]

-- A nested name is shorter than the text that holds it.
unfoldable pub varexp : Bytes → (Bytes → Bytes) → Run Bytes
unfolding varexp_fuel
varexp s find = varexp_fuel (suc (length s)) find s
