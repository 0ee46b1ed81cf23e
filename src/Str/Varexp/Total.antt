-- ===== src/Str/Varexp/Total.antt =====
-- `varexp` ends: its fuel is enough for the loop over the text and for the nested names.
use lorelei.Base.{
  ℕ, zero, suc, ◌<◌, ◌≤◌, false, List, [], ◌∷◌, ◌++◌, none, some, Bytes, length, Run, ok, ◌≡◌, refl,
  arith, Option-cases, inl, inr, ap, length-append, Ends, Ends-ok, Ends->>=, All,
}
use lorelei.Str.Varexp.Parts.{scan-length, split_loop-source, part_source, parts_source}
use lorelei.Str.Varexp.{
  Part, PartType, literal_with_dollar, nested_variable, scan, flush, plain_buf, var_type,
  split_loop, varexp_split, part_value, expand_parts, varexp_fuel, varexp,
}

split_loop-Ends :
    (fuel : ℕ) (buf : Part) (rest : Bytes) (result : List Part)
    → length rest < fuel
    → Ends (split_loop fuel buf rest result)
unfolding split_loop
split_loop-Ends zero buf rest result lt = absurd (omega arith)
split_loop-Ends (suc fuel) buf [] result lt = tt
split_loop-Ends (suc fuel) buf (c ∷ []) result lt = split_loop-Ends fuel _ [] result (omega arith)
split_loop-Ends (suc fuel) buf (c ∷ d ∷ cs) result lt =
    let ih1 =
      split_loop-Ends fuel (record { kind = literal_with_dollar; text = buf.text ++ c ∷ d ∷ [] }) cs
        result (omega arith) in
    let ih2 =
      split_loop-Ends fuel (record buf { text = buf.text ++ c ∷ [] }) (d ∷ cs) result
        (omega arith) in
    elim (Option-cases (scan 1 false [] cs)) [
      | inl e ↦ ground (arith, ih1, ih2)
      | inr ((n, b, r), e) ↦ ground (
        arith,
        ih1,
        ih2,
        split_loop-Ends fuel plain_buf r
            (flush result buf ++ record { kind = var_type n; text = b } ∷ []),
        scan-length cs n b r,
      )
    ]

-- A nested name is shorter than the text.
abbrev Shorter : ℕ → Part → Type 0
Shorter n p = p.kind ≡ nested_variable → length p.text < n

part-length : (k : PartType) (t : Bytes) → k ≡ nested_variable → length t < length (part_source k t)
part-length k t e = rw e (omega (arith, length-append t (b'}' ∷ [])))

parts-Shorter : (n : ℕ) (ps : List Part) → length (parts_source ps) ≤ n → All (Shorter n) ps
parts-Shorter n [] h = tt
parts-Shorter n (p ∷ ps) h = (
  λ e. omega (
    arith,
    part-length p.kind p.text e,
    length-append (part_source p.kind p.text) (parts_source ps),
  ),
  parts-Shorter n ps (omega (arith, length-append (part_source p.kind p.text) (parts_source ps))),
)

varexp_split-Ends : (s : Bytes) → Ends (varexp_split s)
unfolding varexp_split
varexp_split-Ends s = split_loop-Ends (suc (length s)) plain_buf s [] (omega arith)

pub varexp_split-Shorter :
    (s : Bytes) (ps : List Part) → varexp_split s ≡ ok (some ps) → All (Shorter (length s)) ps
unfolding varexp_split
varexp_split-Shorter s ps h =
    parts-Shorter (length s) ps
      (omega (arith, ap length (split_loop-source (suc (length s)) plain_buf s [] ps (inl refl) h)))

part_value-Ends :
    (again : Bytes → Run Bytes) (find : Bytes → Bytes) (n : ℕ) (k : PartType) (t : Bytes)
    → ((u : Bytes) → length u < n → Ends (again u))
    → (k ≡ nested_variable → length t < n)
    → Ends (part_value again find k t)
unfolding part_value
part_value-Ends again find n nested_variable t en sh =
    Ends->>= (again t) _ (en t (sh refl)) (λ a e. tt)
part_value-Ends again find n _ t en sh = tt

expand_parts-Ends :
    (again : Bytes → Run Bytes) (find : Bytes → Bytes) (n : ℕ) (ps : List Part) (result : Bytes)
    → ((t : Bytes) → length t < n → Ends (again t))
    → All (Shorter n) ps
    → Ends (expand_parts again find ps result)
unfolding expand_parts
expand_parts-Ends again find n [] result en sh = tt
expand_parts-Ends again find n (p ∷ ps) result en sh =
    Ends->>= _ _ (part_value-Ends again find n p.kind p.text en sh.0)
      (λ t e. expand_parts-Ends again find n ps (result ++ t) en sh.1)

pub varexp_fuel-Ends :
    (fuel : ℕ) (find : Bytes → Bytes) (s : Bytes) → length s < fuel → Ends (varexp_fuel fuel find s)
unfolding varexp_fuel
varexp_fuel-Ends zero find s lt = absurd (omega arith)
varexp_fuel-Ends (suc fuel) find s lt = Ends->>= (varexp_split s) _ (varexp_split-Ends s) (elim [
  | none ↦ λ e. tt
  | some ps ↦ λ e.
      Ends->>= (expand_parts (varexp_fuel fuel find) find ps []) _
        (expand_parts-Ends _ find (length s) ps []
          (λ t h. varexp_fuel-Ends fuel find t (omega arith)) (varexp_split-Shorter s ps e))
        (λ a k. tt)
])

-- varexp returns on every text, whatever the variables hold.
pub varexp-Ends : (s : Bytes) (find : Bytes → Bytes) → (r : Bytes) × (varexp s find ≡ ok r)
unfolding varexp
varexp-Ends s find = Ends-ok _ (varexp_fuel-Ends (suc (length s)) find s (omega arith))
