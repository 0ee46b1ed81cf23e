-- ===== src/Str/Varexp/Template.antt =====
-- What `varexp` makes of a text of plain runs, `$$` and variables that are not nested.
use lorelei.Base.{
  ℕ, zero, suc, ◌+◌, ◌-◌, ◌<◌, ◌≤◌, false, List, [], ◌∷◌, ◌++◌, some, Bytes, is_nil, length, ◌==◌,
  if◌then◌else◌, Run, ok, ◌≡◌, refl, arith, append_assoc, append-nil, inl, inr, ap, sym, ◌⊎◌, ◌∙◌,
  length-append, All, has_byte, subst,
}
use Prim.Native.Nat.add
use lorelei.Str.Varexp.{
  Part, PartType, literal, literal_with_dollar, variable, scan, flush, split_loop, expand_parts,
  varexp_post, varexp_fuel, varexp,
}

pub data Segment : Type 0 where
  text : Bytes → Segment
  dollar : Segment
  var : Bytes → Segment

-- A plain run has no `$`; a name has no `$` and no `}`, and its value has no `$`.
abbrev pub IsSegment : (Bytes → Bytes) → Segment → Type 0
IsSegment find (text t) = has_byte b'$' t ≡ false
IsSegment find dollar = Unit
IsSegment find (var n) =
    (has_byte b'$' n ≡ false) × (has_byte b'}' n ≡ false) × (has_byte b'$' (find n) ≡ false)

abbrev pub segment_source : Segment → Bytes
segment_source (text t) = t
segment_source dollar = b'$' ∷ b'$' ∷ []
segment_source (var n) = b'$' ∷ b'{' ∷ (n ++ b'}' ∷ [])

abbrev pub segment_meaning : (Bytes → Bytes) → Segment → Bytes
segment_meaning find (text t) = t
segment_meaning find dollar = b'$' ∷ []
segment_meaning find (var n) = find n

abbrev pub template_source : List Segment → Bytes
template_source [] = []
template_source (x ∷ xs) = segment_source x ++ template_source xs

abbrev pub template_meaning : (Bytes → Bytes) → List Segment → Bytes
template_meaning find [] = []
template_meaning find (x ∷ xs) = segment_meaning find x ++ template_meaning find xs

-- What the parts expand to, before `varexp_post`.
abbrev segment_value : (Bytes → Bytes) → Segment → Bytes
segment_value find (text t) = t
segment_value find dollar = b'$' ∷ b'$' ∷ []
segment_value find (var n) = find n

abbrev template_value : (Bytes → Bytes) → List Segment → Bytes
template_value find [] = []
template_value find (x ∷ xs) = segment_value find x ++ template_value find xs

varexp_post-plain :
    (t rest : Bytes) → has_byte b'$' t ≡ false → varexp_post (t ++ rest) ≡ t ++ varexp_post rest
unfolding varexp_post has_byte
varexp_post-plain [] rest h = refl
varexp_post-plain (c ∷ []) [] h = refl
varexp_post-plain (c ∷ []) (r ∷ rest) h = ground arith
varexp_post-plain (c ∷ d ∷ cs) rest h = ground (arith, varexp_post-plain (d ∷ cs) rest)

varexp_post-template :
    (find : Bytes → Bytes) (xs : List Segment)
    → All (IsSegment find) xs
    → varexp_post (template_value find xs) ≡ template_meaning find xs
unfolding varexp_post
varexp_post-template find [] h = refl
varexp_post-template find (text t ∷ xs) h =
    varexp_post-plain t _ h.0 ∙ ap (◌++◌ t) (varexp_post-template find xs h.1)
varexp_post-template find (dollar ∷ xs) h = ap (◌∷◌ b'$') (varexp_post-template find xs h.1)
varexp_post-template find (var n ∷ xs) h =
    varexp_post-plain (find n) _ h.0.2 ∙ ap (◌++◌ (find n)) (varexp_post-template find xs h.1)

split_loop-byte :
    (c : ℕ) (rest : Bytes) (fuel : ℕ) (k : PartType) (b : Bytes) (result : List Part)
    → (c == b'$') ≡ false
    → split_loop (suc fuel) (record { kind = k; text = b }) (c ∷ rest) result
      ≡ split_loop fuel (record { kind = k; text = b ++ c ∷ [] }) rest result
unfolding split_loop
split_loop-byte c [] fuel k b result h = refl
split_loop-byte c (d ∷ rest) fuel k b result h = rw h

split_loop-plain :
    (t rest : Bytes) (fuel : ℕ) (k : PartType) (b : Bytes) (result : List Part)
    → has_byte b'$' t ≡ false
    → split_loop (length t + fuel) (record { kind = k; text = b }) (t ++ rest) result
      ≡ split_loop fuel (record { kind = k; text = b ++ t }) rest result
unfolding has_byte
split_loop-plain [] rest fuel k b result h = rw (add.zero, append-nil)
split_loop-plain (c ∷ cs) rest fuel k b result h = rw add.suc (
    split_loop-byte c (cs ++ rest) (length cs + fuel) k b result (ground arith)
    ∙ split_loop-plain cs rest fuel k (b ++ c ∷ []) result (ground arith)
    ∙ rw append_assoc)

scan-plain :
    (n rest body : Bytes)
    → has_byte b'$' n ≡ false
    → has_byte b'}' n ≡ false
    → scan 1 false body (n ++ b'}' ∷ rest) ≡ some (false, body ++ n, rest)
unfolding scan has_byte
scan-plain [] [] body h k = rw append-nil
scan-plain [] (r ∷ rest) body h k = rw append-nil
scan-plain (c ∷ []) rest body h k =
    ground (arith, scan-plain [] rest (body ++ c ∷ []), append_assoc body (c ∷ []) [])
scan-plain (c ∷ d ∷ cs) rest body h k =
    ground (arith, scan-plain (d ∷ cs) rest (body ++ c ∷ []), append_assoc body (c ∷ []) (d ∷ cs))

flush-append : (result : List Part) (buf : Part) → flush result buf ≡ result ++ flush [] buf
flush-append result buf = go buf.text
  where
    go :
        (t : Bytes)
        → (if is_nil t then result else result ++ buf ∷ [])
          ≡ result ++ (if is_nil t then [] else buf ∷ [])
    go [] = sym (append-nil result)
    go (x ∷ t) = refl

expand_parts-flush :
    (again : Bytes → Run Bytes) (find : Bytes → Bytes) (k : PartType) (b : Bytes) (qs : List Part)
    (out : Bytes)
    → (k ≡ literal) ⊎ (k ≡ literal_with_dollar)
    → expand_parts again find (flush [] (record { kind = k; text = b }) ++ qs) out
      ≡ expand_parts again find qs (out ++ b)
unfolding expand_parts
expand_parts-flush again find k [] qs out pl = rw append-nil
expand_parts-flush again find k (x ∷ b) qs out (inl e) = rw e
expand_parts-flush again find k (x ∷ b) qs out (inr e) = rw e

module _ (find : Bytes → Bytes) where
  -- The parts found behind `result` expand to `b` and the value of the segments.
  record Found (xs : List Segment) (b : Bytes) (result all : List Part) : Type 0 where
    parts : List Part
    behind : all ≡ result ++ parts
    expands :
        (again : Bytes → Run Bytes) (out : Bytes)
        → expand_parts again find parts out ≡ ok (out ++ (b ++ template_value find xs))

  abbrev Splits : List Segment → ℕ → PartType → Bytes → List Part → Type 0
  Splits xs fuel k b result =
      (ps : List Part) × (split_loop fuel (record { kind = k; text = b }) (template_source xs)
          result
        ≡ ok (some ps))
      × Found xs b result ps

  -- The last flush.
  Splits-nil :
      (fuel : ℕ) (k : PartType) (b : Bytes) (result : List Part)
      → (k ≡ literal) ⊎ (k ≡ literal_with_dollar)
      → Splits [] (suc fuel) k b result
  unfolding split_loop expand_parts
  Splits-nil fuel k b result pl = (
    flush result (record { kind = k; text = b }),
    refl,
    record {
      parts = flush [] (record { kind = k; text = b });
      behind = flush-append result _;
      expands = λ again out.
          rw (← append-nil (flush [] (record { kind = k; text = b })))
            (expand_parts-flush again find k b [] out pl ∙ rw append-nil);
    },
  )

  Splits-text :
      (t : Bytes) (xs : List Segment) (fuel : ℕ) (k : PartType) (b : Bytes) (result : List Part)
      → has_byte b'$' t ≡ false
      → length t ≤ fuel
      → Splits xs (fuel - length t) k (b ++ t) result
      → Splits (text t ∷ xs) fuel k b result
  Splits-text t xs fuel k b result h le (ps, run, f) =
      let e : length t + (fuel - length t) ≡ fuel = omega arith in
      (
        ps,
        subst
            (λ n.
              split_loop n (record { kind = k; text = b }) (t ++ template_source xs) result
              ≡ ok (some ps))
            e (split_loop-plain t (template_source xs) (fuel - length t) k b result h ∙ run),
        record {
          parts = f.parts;
          behind = f.behind;
          expands = λ again out. f.expands again out ∙ rw append_assoc;
        },
      )

  Splits-dollar :
      (xs : List Segment) (fuel : ℕ) (k : PartType) (b : Bytes) (result : List Part)
      → Splits xs fuel literal_with_dollar (b ++ b'$' ∷ b'$' ∷ []) result
      → Splits (dollar ∷ xs) (suc fuel) k b result
  unfolding split_loop
  Splits-dollar xs fuel k b result (ps, run, f) = (
    ps,
    run,
    record {
      parts = f.parts;
      behind = f.behind;
      expands = λ again out. f.expands again out ∙ rw append_assoc;
    },
  )

  Splits-var :
      (n : Bytes) (xs : List Segment) (fuel : ℕ) (k : PartType) (b : Bytes) (result : List Part)
      → has_byte b'$' n ≡ false
      → has_byte b'}' n ≡ false
      → (k ≡ literal) ⊎ (k ≡ literal_with_dollar)
      → Splits xs fuel literal [] (
          flush result (record { kind = k; text = b }) ++ record { kind = variable; text = n } ∷ [])
      → Splits (var n ∷ xs) (suc fuel) k b result
  unfolding split_loop expand_parts
  Splits-var n xs fuel k b result h1 h2 pl (ps, run, f) = (
    ps,
    rw (append_assoc, scan-plain n (template_source xs) [] h1 h2, split_loop) run,
    record {
      parts =
          flush [] (record { kind = k; text = b })
          ++ record { kind = variable; text = n } ∷ f.parts;
      behind =
          f.behind
          ∙ append_assoc (flush result _) _ f.parts
          ∙ ap (λ l. l ++ record { kind = variable; text = n } ∷ f.parts) (flush-append result _)
          ∙ append_assoc result _ _;
      expands = λ again out.
          expand_parts-flush again find k b _ out pl
          ∙ f.expands again ((out ++ b) ++ find n)
          ∙ rw (append_assoc, append_assoc);
    },
  )

  split_loop-template :
      (xs : List Segment) (fuel : ℕ) (k : PartType) (b : Bytes) (result : List Part)
      → All (IsSegment find) xs
      → (k ≡ literal) ⊎ (k ≡ literal_with_dollar)
      → length (template_source xs) < fuel
      → Splits xs fuel k b result
  split_loop-template xs zero k b result h pl lt = absurd (omega arith)
  split_loop-template [] (suc fuel) k b result h pl lt = Splits-nil fuel k b result pl
  split_loop-template (text t ∷ xs) (suc fuel) k b result h pl lt =
      let size = length-append t (template_source xs) in
      Splits-text t xs (suc fuel) k b result h.0 (omega arith)
        (split_loop-template xs (suc fuel - length t) k (b ++ t) result h.1 pl (omega arith))
  split_loop-template (dollar ∷ xs) (suc fuel) k b result h pl lt =
      Splits-dollar xs fuel k b result
        (split_loop-template xs fuel literal_with_dollar _ result h.1 (inr refl) (omega arith))
  split_loop-template (var n ∷ xs) (suc fuel) k b result h pl lt =
      let size = length-append (n ++ b'}' ∷ []) (template_source xs) in
      Splits-var n xs fuel k b result h.0.0 h.0.1 pl
        (split_loop-template xs fuel literal [] _ h.1 (inl refl) (omega arith))

-- On a template of plain runs, $$ and ${name}, where no run, name or value holds a $ and no name
-- holds a }, varexp returns its meaning: plain runs stay, $$ is one $, and each name gives way
-- to its value.
pub varexp-template :
    (find : Bytes → Bytes) (xs : List Segment)
    → All (IsSegment find) xs
    → varexp (template_source xs) find ≡ ok (template_meaning find xs)
unfolding varexp varexp_fuel
varexp-template find xs h =
    let s = template_source xs in
    let (ps, run, f) =
      split_loop-template find xs (suc (length s)) literal [] [] h (inl refl) (omega arith) in
    rw (run, f.behind, f.expands) (ap ok (varexp_post-template find xs h))
