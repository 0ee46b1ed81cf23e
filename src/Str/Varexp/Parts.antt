-- ===== src/Str/Varexp/Parts.antt =====
-- The parts that `varexp_split` finds cover its text.
use lorelei.Base.{
  ℕ, zero, suc, ◌+◌, ◌-◌, ◌<◌, Bool, true, false, List, [], ◌∷◌, ◌++◌, some, Bytes, length, ok, ◌≡◌,
  refl, arith, append_assoc, append-nil, Option-cases, inl, inr, ap, sym, ◌⊎◌, ◌∙◌, length-append,
}
use lorelei.Str.Varexp.{
  Part, PartType, literal, literal_with_dollar, variable, nested_variable, scan, flush, plain_buf,
  var_type, split_loop, varexp_split,
}

-- The text that a part stands for in the source.
abbrev pub part_source : PartType → Bytes → Bytes
part_source literal t = t
part_source literal_with_dollar t = t
part_source variable t = b'$' ∷ b'{' ∷ (t ++ b'}' ∷ [])
part_source nested_variable t = b'$' ∷ b'{' ∷ (t ++ b'}' ∷ [])

abbrev pub parts_source : List Part → Bytes
parts_source [] = []
parts_source (p ∷ ps) = part_source p.kind p.text ++ parts_source ps

parts_source-append : (a b : List Part) → parts_source (a ++ b) ≡ parts_source a ++ parts_source b
parts_source-append [] b = refl
parts_source-append (p ∷ a) b =
    rw (parts_source-append a b) (sym (append_assoc (part_source p.kind p.text) _ _))

pub scan-append :
    (s : Bytes) (count : ℕ) (nested : Bool) (body : Bytes) (n : Bool) (b r : Bytes)
    → scan count nested body s ≡ some (n, b, r)
    → body ++ s ≡ b ++ b'}' ∷ r
unfolding scan
scan-append [] count nested body n b r h = cc
scan-append (c ∷ []) count nested body n b r h = ground arith
scan-append (c ∷ d ∷ cs) count nested body n b r h = ground (
  arith,
  scan-append cs (count + 1) true (body ++ c ∷ d ∷ []) n b r,
  scan-append (d ∷ cs) (count - 1) nested (body ++ c ∷ []) n b r,
  scan-append (d ∷ cs) count nested (body ++ c ∷ []) n b r,
  append_assoc body (c ∷ []) (d ∷ cs),
  append_assoc body (c ∷ d ∷ []) cs,
)

pub scan-length :
    (s : Bytes) (n : Bool) (b r : Bytes)
    → scan 1 false [] s ≡ some (n, b, r)
    → length b + length r < length s
scan-length s n b r h =
    omega (arith, ap length (scan-append s 1 false [] n b r h), length-append b (b'}' ∷ r))

-- `buf` holds plain text.
abbrev IsPlain : PartType → Type 0
IsPlain k = (k ≡ literal) ⊎ (k ≡ literal_with_dollar)

flush-source :
    (result : List Part) (k : PartType) (t : Bytes)
    → IsPlain k
    → parts_source (flush result (record { kind = k; text = t })) ≡ parts_source result ++ t
flush-source result k [] h = sym (append-nil (parts_source result))
flush-source result k (x ∷ t) h =
    parts_source-append result _ ∙ ap (◌++◌ (parts_source result)) (plain_source h)
  where
    plain_source : IsPlain k → part_source k (x ∷ t) ++ [] ≡ x ∷ t
    plain_source (inl e) = rw e (append-nil (x ∷ t))
    plain_source (inr e) = rw e (append-nil (x ∷ t))

var-source :
    (n : Bool) (b r : Bytes) → part_source (var_type n) b ++ r ≡ b'$' ∷ b'{' ∷ (b ++ b'}' ∷ r)
var-source true b r = ap (λ t. b'$' ∷ b'{' ∷ t) (append_assoc b _ r)
var-source false b r = ap (λ t. b'$' ∷ b'{' ∷ t) (append_assoc b _ r)

expand-source :
    (result : List Part) (buf : Part) (cs : Bytes) (n : Bool) (b r : Bytes)
    → IsPlain buf.kind
    → scan 1 false [] cs ≡ some (n, b, r)
    → parts_source (flush result buf ++ record { kind = var_type n; text = b } ∷ []) ++ r
      ≡ parts_source result ++ (buf.text ++ b'$' ∷ b'{' ∷ cs)
expand-source result buf cs n b r pl h = rw (
  parts_source-append,
  flush-source result buf.kind buf.text pl,
  append-nil,
  append_assoc,
  append_assoc,
  var-source,
  ← scan-append cs 1 false [] n b r h,
)

pub split_loop-source :
    (fuel : ℕ) (buf : Part) (rest : Bytes) (result ps : List Part)
    → IsPlain buf.kind
    → split_loop fuel buf rest result ≡ ok (some ps)
    → parts_source ps ≡ parts_source result ++ (buf.text ++ rest)
unfolding split_loop
split_loop-source zero buf rest result ps pl h = cc
split_loop-source (suc fuel) buf [] result ps pl h =
    rw append-nil (ground (arith, flush-source result buf.kind buf.text pl))
split_loop-source (suc fuel) buf (c ∷ []) result ps pl h =
    split_loop-source fuel _ [] result ps pl h ∙ rw append-nil
split_loop-source (suc fuel) buf (c ∷ d ∷ cs) result ps pl h =
    elim (Option-cases (scan 1 false [] cs)) [
      | inl e ↦ ground (
        arith,
        split_loop-source fuel
            (record { kind = literal_with_dollar; text = buf.text ++ c ∷ d ∷ [] }) cs result ps
            (inr refl),
        split_loop-source fuel (record buf { text = buf.text ++ c ∷ [] }) (d ∷ cs) result ps pl,
        append_assoc buf.text (c ∷ []) (d ∷ cs),
        append_assoc buf.text (c ∷ d ∷ []) cs,
      )
      | inr ((n, b, r), e) ↦ ground (
        arith,
        split_loop-source fuel
            (record { kind = literal_with_dollar; text = buf.text ++ c ∷ d ∷ [] }) cs result ps
            (inr refl),
        split_loop-source fuel (record buf { text = buf.text ++ c ∷ [] }) (d ∷ cs) result ps pl,
        split_loop-source fuel plain_buf r
            (flush result buf ++ record { kind = var_type n; text = b } ∷ []) ps (inl refl),
        expand-source result buf cs n b r pl e,
        append_assoc buf.text (c ∷ []) (d ∷ cs),
        append_assoc buf.text (c ∷ d ∷ []) cs,
      )
    ]

-- Where varexp_split succeeds its parts are the whole text: written back, each in its place,
-- they give the text again.
pub varexp_split-source :
    (s : Bytes) (ps : List Part) → varexp_split s ≡ ok (some ps) → parts_source ps ≡ s
unfolding varexp_split
varexp_split-source s ps h = split_loop-source (suc (length s)) plain_buf s [] ps (inl refl) h
