-- ===== src/Str/Split/Find.antt =====
-- What a found position says of the text.
use lorelei.Base.{
  ℕ, zero, suc, ◌+◌, ◌≡◌, ◌≢◌, refl, true, [], ◌∷◌, ◌++◌, none, some, Bytes, has_prefix, find,
  length, take, drop, drop-suc_add, Bool-cases, Option-cases, inl, inr, arith,
}

pub has_prefix-append : (s p : Bytes) → has_prefix s p ≡ true → s ≡ p ++ drop (length p) s
unfolding has_prefix
has_prefix-append s [] h = refl
has_prefix-append [] (p ∷ ps) h = cc
has_prefix-append (c ∷ cs) (p ∷ ps) h = ground (arith, has_prefix-append cs ps)

pub has_prefix-of_append : (p s : Bytes) → has_prefix (p ++ s) p ≡ true
unfolding has_prefix
has_prefix-of_append [] s = refl
has_prefix-of_append (p ∷ ps) s = ground (arith, has_prefix-of_append ps s)

pub has_prefix-take : (n : ℕ) (s p : Bytes) → has_prefix (take n s) p ≡ true → has_prefix s p ≡ true
unfolding has_prefix
has_prefix-take n s [] h = refl
has_prefix-take zero s (p ∷ ps) h = cc
has_prefix-take (suc n) [] (p ∷ ps) h = cc
has_prefix-take (suc n) (c ∷ cs) (p ∷ ps) h = ground (arith, has_prefix-take n cs ps)

pub find-append :
    (s d : Bytes) (n : ℕ) → find s d ≡ some n → s ≡ take n s ++ (d ++ drop (n + length d) s)
unfolding find
find-append [] [] n h = ground arith
find-append [] (x ∷ d) n h = cc
find-append (c ∷ cs) d n h = elim (Bool-cases (has_prefix (c ∷ cs) d)) [
  | inl here ↦ ground (arith, has_prefix-append (c ∷ cs) d here)
  | inr later ↦ elim (Option-cases (find cs d)) [
    | inl e ↦ cc (e, rw later at h)
    | inr (m, e) ↦ ground (arith, find-append cs d m e, drop-suc_add m (length d) c cs)
  ]
]

pub find-take : (s d : Bytes) (n : ℕ) → d ≢ [] → find s d ≡ some n → find (take n s) d ≡ none
unfolding find has_prefix
find-take s [] n ne h = absurd (ne refl)
find-take [] (x ∷ d) n ne h = cc
find-take (c ∷ cs) (x ∷ d) n ne h = elim (Option-cases (find cs (x ∷ d))) [
  | inl e ↦ ground arith
  | inr (m, e) ↦ ground (arith, find-take cs (x ∷ d) m ne e, has_prefix-take m cs d)
]
