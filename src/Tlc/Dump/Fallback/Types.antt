-- ===== src/Tlc/Dump/Fallback/Types.antt =====
-- When `decideFallbackType` of src/tools/TLC/Commands/Dump.cpp writes a type as it stands, and how
-- `looksLikeUnresolvedNamedPointerType` reads the words of a type.
use lorelei.Base.{
  ℕ, ◌≡◌, ◌≢◌, refl, ◌∙◌, sym, ap, subst, ◌⊎◌, inl, inr, Bool, true, false, not, ◌&&◌, List, [],
  ◌∷◌, ◌++◌, append_assoc, append-nil, map, Bytes, codes, is_nil, is_some, Option, none, some,
  equal, equal_iff, equal_refl, ◌==◌, if◌then◌else◌, Bool-cases, All, arith,
}
use lorelei.Ordered.{Set, find, keys}
use lorelei.Tlc.Callbacks.Reach.{Has}
use lorelei.Tlc.Dump.{CapturedType, any_equal}
use lorelei.Tlc.Dump.Fallback.{
  is_word_byte, normalize, tokens, unresolved_token, skipped_tokens, safe_tokens,
  is_safe_builtin_pointer_base_token, looks_like_unresolved_named_pointer_type, has_unknown_header,
  has_unresolved_named_pointer, decide_fallback_type, FallbackTypeDecision,
}

abbrev pub IsWord : Bytes → Type 0
IsWord w = (w ≢ []) × All (λ c. is_word_byte c ≡ true) w

abbrev pub IsGap : Bytes → Type 0
IsGap g = All (λ c. is_word_byte c ≡ false) g

-- Words, each behind a gap, the first one perhaps behind none.
abbrev pub Spaced : List (Bytes × Bytes) → Type 0
Spaced [] = Unit
Spaced ((gap, word) ∷ parts) = (gap ≢ []) × IsGap gap × IsWord word × Spaced parts

abbrev pub source_text : List (Bytes × Bytes) → Bytes → Bytes
source_text [] tail = tail
source_text ((gap, word) ∷ parts) tail = gap ++ (word ++ source_text parts tail)

abbrev pub words : List (Bytes × Bytes) → List Bytes
words parts = map (λ p. p.1) parts

-- the first word that is not passed over
abbrev pub base_word : List Bytes → Option Bytes
base_word [] = none
base_word (w ∷ ws) = if any_equal w skipped_tokens then base_word ws else some w

tokens-word :
    (w begun rest : Bytes)
    → All (λ c. is_word_byte c ≡ true) w
    → tokens begun (normalize (w ++ rest)) ≡ tokens (begun ++ w) (normalize rest)
unfolding tokens normalize
tokens-word [] begun rest h = ap (λ b. tokens b (normalize rest)) (sym (append-nil begun))
tokens-word (c ∷ w) begun rest h =
    let plain : (c == b' ') ≡ false = ground arith in
    rw (normalize, h.0, tokens, plain)
      (tokens-word w (begun ++ c ∷ []) rest h.1
        ∙ ap (λ b. tokens b (normalize rest)) (append_assoc begun (c ∷ []) w))

tokens-gap :
    (g rest : Bytes) → IsGap g → tokens [] (normalize (g ++ rest)) ≡ tokens [] (normalize rest)
unfolding tokens normalize
tokens-gap [] rest h = refl
tokens-gap (c ∷ g) rest h = rw (normalize, h.0) (tokens-gap g rest h.1)

tokens-end :
    (c : ℕ) (begun g rest : Bytes)
    → begun ≢ []
    → is_word_byte c ≡ false
    → IsGap g
    → tokens begun (normalize (c ∷ (g ++ rest))) ≡ begun ∷ tokens [] (normalize rest)
unfolding tokens normalize
tokens-end c [] g rest n w h = absurd (n refl)
tokens-end c (b ∷ begun) g rest n w h =
    rw (normalize, w) (ap (λ t. (b ∷ begun) ∷ t) (tokens-gap g rest h))

tokens-tail :
    (begun tail : Bytes) → begun ≢ [] → IsGap tail → tokens begun (normalize tail) ≡ begun ∷ []
unfolding tokens normalize
tokens-tail [] tail n h = absurd (n refl)
tokens-tail (b ∷ begun) [] n h = refl
tokens-tail (b ∷ begun) (c ∷ tail) n h =
    rw (normalize, h.0)
      (ap (λ t. (b ∷ begun) ∷ t)
        (subst (λ s. tokens [] (normalize s) ≡ []) (append-nil tail) (tokens-gap tail [] h.1)))

tokens-Spaced :
    (begun : Bytes) (parts : List (Bytes × Bytes)) (tail : Bytes)
    → begun ≢ []
    → Spaced parts
    → IsGap tail
    → tokens begun (normalize (source_text parts tail)) ≡ begun ∷ words parts
tokens-Spaced begun [] tail n s t = tokens-tail begun tail n t
tokens-Spaced begun (([], word) ∷ parts) tail n s t = absurd (s.0 refl)
tokens-Spaced begun ((c ∷ gap, word) ∷ parts) tail n s t =
    tokens-end c begun gap (word ++ source_text parts tail) n s.1.0 s.1.1
    ∙ ap (λ r. begun ∷ r)
        (tokens-word word [] (source_text parts tail) s.2.1
          ∙ tokens-Spaced word parts tail s.2.0 s.3 t)

unresolved_token-base_word :
    (ws : List Bytes)
    → unresolved_token ws
      ≡ elim (base_word ws) [ none ↦ false | some w ↦ not (any_equal w safe_tokens) ]
unfolding unresolved_token is_safe_builtin_pointer_base_token
unresolved_token-base_word [] = refl
unresolved_token-base_word (w ∷ ws) = elim (Bool-cases (any_equal w skipped_tokens)) [
  | inl e ↦ rw (unresolved_token, e) (unresolved_token-base_word ws)
  | inr e ↦ rw (unresolved_token, e) refl
]

-- A type text of words with gaps between them looks unresolved exactly if it has a word that is
-- no qualifier and no struct, union or enum keyword, and the first such word is not among the
-- built-in names.
pub looks_like_unresolved_named_pointer_type-words :
    (gap word : Bytes) (parts : List (Bytes × Bytes)) (tail : Bytes)
    → IsGap gap
    → IsWord word
    → Spaced parts
    → IsGap tail
    → looks_like_unresolved_named_pointer_type (source_text ((gap, word) ∷ parts) tail)
      ≡ elim (base_word (word ∷ words parts)) [
        | none ↦ false
        | some w ↦ not (any_equal w safe_tokens)
      ]
unfolding looks_like_unresolved_named_pointer_type
looks_like_unresolved_named_pointer_type-words gap word parts tail g w s t =
    ap unresolved_token (
      tokens-gap gap (word ++ source_text parts tail) g
      ∙ tokens-word word [] (source_text parts tail) w.1
      ∙ tokens-Spaced word parts tail w.0 s t)
    ∙ unresolved_token-base_word (word ∷ words parts)

-- Its headers are all known, it has no other file, and it is no pointer to a type of unknown name.
pub record IsKnown (type : CapturedType) (known : Set) : Type 0 where
  pub headers : (path : Bytes) → Has path type.header_paths → Has path known
  pub sources : (path : Bytes) → ¬ Has path type.non_header_paths
  pub named : has_unresolved_named_pointer type ≡ false

clash : {b : Bool} → b ≡ true → b ≡ false → ⊥
clash h k = cc

has_unknown_header-false :
    (paths known : Set)
    → has_unknown_header (keys paths) known ≡ false
    → (p : Bytes) → Has p paths
    → Has p known
unfolding has_unknown_header find is_some
has_unknown_header-false [] known h p i = cc
has_unknown_header-false ((j, v) ∷ paths) known h p i = elim (Bool-cases (is_some (find j known))) [
  | inr e ↦ absurd (cc (rw (has_unknown_header, e) at h))
  | inl e ↦
      let h' : has_unknown_header (keys paths) known ≡ false = rw (has_unknown_header, e) at h in
      elim (Bool-cases (equal p j)) [
        | inl same ↦ rw ((equal_iff p j).0 same) e
        | inr other ↦ has_unknown_header-false paths known h' p (rw (find, other) at i)
      ]
]

has_unknown_header-true :
    (paths known : Set)
    → has_unknown_header (keys paths) known ≡ true
    → (p : Bytes) × Has p paths × (is_some (find p known) ≡ false)
unfolding has_unknown_header find is_some
has_unknown_header-true [] known h = cc
has_unknown_header-true ((j, v) ∷ paths) known h = elim (Bool-cases (is_some (find j known))) [
  | inr e ↦ (j, rw (find, equal_refl j) refl, e)
  | inl e ↦
      let (p, i, n) = has_unknown_header-true paths known (rw (has_unknown_header, e) at h) in
      elim (Bool-cases (equal p j)) [
        | inl same ↦ (p, rw (find, same) refl, n)
        | inr other ↦ (p, rw (find, other) i, n)
      ]
]

no_paths : (paths : Set) → is_nil paths ≡ true → (p : Bytes) → ¬ Has p paths
unfolding find is_some
no_paths [] h p i = cc
no_paths (e ∷ paths) h p i = cc

some_path : (paths : Set) → is_nil paths ≡ false → (p : Bytes) × Has p paths
unfolding find is_some
some_path [] h = cc
some_path ((j, v) ∷ paths) h = (j, rw (find, equal_refl j) refl)

-- A type that is known is written as it stands, and another one only if it is a pointer.
pub record Decided (type : CapturedType) (d : FallbackTypeDecision) : Type 0 where
  pub allowed_lem : d.allowed ≡ type.pointer_like
  pub rewritten_lem : d.rewritten_to_void_ptr ≡ type.pointer_like
  pub emitted_lem : d.emitted_type_text ≡ (if type.pointer_like then codes "void *" else [])

not_known :
    (type : CapturedType) (known : Set) (ret : Bool)
    → (not (has_unknown_header (keys type.header_paths) known)
        && is_nil type.non_header_paths
        && not (has_unresolved_named_pointer type))
      ≡ false
    → Decided type (decide_fallback_type type known ret)
unfolding decide_fallback_type
not_known type known ret h = elim (Bool-cases type.pointer_like) [
  | inl p ↦ record {
    allowed_lem = rw (decide_fallback_type, h, p) refl;
    rewritten_lem = rw (decide_fallback_type, h, p) refl;
    emitted_lem = rw (decide_fallback_type, h, p) refl;
  }
  | inr p ↦ record {
    allowed_lem = rw (decide_fallback_type, h, p) refl;
    rewritten_lem = rw (decide_fallback_type, h, p) refl;
    emitted_lem = rw (decide_fallback_type, h, p) refl;
  }
]

-- A type whose headers are all known, that depends on no other file, and that is no pointer to a
-- type of unresolved name is allowed as it stands; any other type is allowed exactly if it is a
-- pointer, and then as void *.
pub decide_fallback_type-IsKnown :
    (type : CapturedType) (known : Set) (ret : Bool)
    → (IsKnown type known
        × ((decide_fallback_type type known ret).allowed ≡ true)
        × ((decide_fallback_type type known ret).rewritten_to_void_ptr ≡ false)
        × ((decide_fallback_type type known ret).emitted_type_text ≡ type.original_text))
      ⊎ ((¬ IsKnown type known) × Decided type (decide_fallback_type type known ret))
unfolding decide_fallback_type
decide_fallback_type-IsKnown type known ret =
    elim (Bool-cases (has_unknown_header (keys type.header_paths) known)) [
      | inl u ↦
          let (p, i, n) = has_unknown_header-true type.header_paths known u in
          inr (λ k. clash (k.headers p i) n, not_known type known ret (rw u refl))
      | inr u ↦ elim (Bool-cases (is_nil type.non_header_paths)) [
        | inr s ↦
            let (p, i) = some_path type.non_header_paths s in
            inr (λ k. k.sources p i, not_known type known ret (rw (u, s) refl))
        | inl s ↦ elim (Bool-cases (has_unresolved_named_pointer type)) [
          | inl n ↦ inr (λ k. clash n k.named, not_known type known ret (rw (n, u, s) refl))
          | inr n ↦ inl (
            record {
              headers = has_unknown_header-false type.header_paths known u;
              sources = no_paths type.non_header_paths s;
              named = n;
            },
            rw (decide_fallback_type, n, u, s) refl,
            rw (decide_fallback_type, n, u, s) refl,
            rw (decide_fallback_type, n, u, s) refl,
          )
        ]
      ]
    ]
