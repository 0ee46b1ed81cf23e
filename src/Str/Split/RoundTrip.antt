-- ===== src/Str/Split/RoundTrip.antt =====
-- `split` and `join` are inverse to one another, and `replace` is made of the two.
use lorelei.Base.{
  ℕ, zero, suc, ◌+◌, ◌<◌, ◌≡◌, ◌≢◌, refl, sym, ap, ◌∙◌, List, [], ◌∷◌, ◌++◌, none, some, Bytes,
  has_prefix, find, length, take, drop, length-drop, Option-cases, inl, inr, arith, All,
  append_assoc,
}
use lorelei.Str.Split.Find.{find-append, find-take}
use lorelei.Str.Split.{join_loop, join, split_loop, split, replace_loop, replace}

join_loop-join : (d res x : Bytes) (xs : List Bytes) → join_loop d res x xs ≡ res ++ join (x ∷ xs) d
unfolding join
join_loop-join d res x [] = refl
join_loop-join d res x (y ∷ ys) =
    rw (join_loop-join d ((res ++ x) ++ d) y ys, join_loop-join d ([] ++ x ++ d) y ys)
      (simp append_assoc)

pub join-cons :
    (d x y : Bytes) (ys : List Bytes) → join (x ∷ y ∷ ys) d ≡ x ++ (d ++ join (y ∷ ys) d)
unfolding join
join-cons d x y ys = join_loop-join d (x ++ d) y ys ∙ append_assoc x d (join (y ∷ ys) d)

-- `ts` are the tokens of `s`: they join to `s`, and no token holds the delimiter.
pub record Tokens (s d : Bytes) (ts : List Bytes) : Type 0 where
  pub nonempty : ts ≢ []
  pub joined : join ts d ≡ s
  pub free : All (λ t. find t d ≡ none) ts

Tokens-cons :
    (s d : Bytes) (n : ℕ) (ts : List Bytes)
    → d ≢ []
    → find s d ≡ some n
    → Tokens (drop (n + length d) s) d ts
    → Tokens s d (take n s ∷ ts)
Tokens-cons s d n [] ne f t = absurd (t.nonempty refl)
Tokens-cons s d n (y ∷ ys) ne f t = record {
  nonempty = λ e. cc;
  joined = join-cons d (take n s) y ys ∙ rw t.joined (sym (find-append s d n f));
  free = (find-take s d n ne f, t.free);
}

Tokens-one : (s d : Bytes) → find s d ≡ none → Tokens s d (s ∷ [])
unfolding join
Tokens-one s d f = record { nonempty = λ e. cc; joined = refl; free = (f, tt) }

pos_of_ne_nil : (d : Bytes) → d ≢ [] → 0 < length d
pos_of_ne_nil [] h = absurd (h refl)
pos_of_ne_nil (x ∷ d) h = omega arith

find-some-ne_nil : (s d : Bytes) (n : ℕ) → d ≢ [] → find s d ≡ some n → 0 < length s
unfolding find
find-some-ne_nil [] [] n ne f = absurd (ne refl)
find-some-ne_nil [] (x ∷ d) n ne f = cc
find-some-ne_nil (c ∷ s) d n ne f = omega arith

abbrev Replaces : ℕ → Bytes → Bytes → List Bytes → Type 0
Replaces fuel d s ts =
    (to finished : Bytes) → replace_loop fuel d to finished s ≡ some (finished ++ join ts to)

Replaces-cons :
    (fuel : ℕ) (d s : Bytes) (n : ℕ) (ts : List Bytes)
    → find s d ≡ some n
    → ts ≢ []
    → Replaces fuel d (drop (n + length d) s) ts
    → Replaces (suc fuel) d s (take n s ∷ ts)
unfolding replace_loop
Replaces-cons fuel d s n [] f tn r to finished = absurd (tn refl)
Replaces-cons fuel d s n (y ∷ ys) f tn r to finished =
    rw (f, replace_loop, join-cons, r to ((finished ++ take n s) ++ to)) (simp append_assoc)

-- One induction for both loops: they stop at the same places.
split_loop-Tokens :
    (fuel : ℕ) (d s : Bytes) (acc : List Bytes)
    → d ≢ []
    → length s < fuel
    → (ts : List Bytes) × (split_loop fuel d s acc ≡ some (acc ++ ts))
      × Tokens s d ts
      × Replaces fuel d s ts
unfolding split_loop replace_loop join
split_loop-Tokens zero d s acc ne lt = absurd (omega arith)
split_loop-Tokens (suc fuel) d s acc ne lt = elim (Option-cases (find s d)) [
  | inl e ↦ (s ∷ [], rw (e, split_loop), Tokens-one s d e, λ to finished. rw (e, replace_loop))
  | inr (n, e) ↦
      let shorter : length (drop (n + length d) s) < fuel =
        omega
          (arith, length-drop (n + length d) s, pos_of_ne_nil d ne, find-some-ne_nil s d n ne e) in
      let (ts, run, t, r) =
        split_loop-Tokens fuel d (drop (n + length d) s) (acc ++ take n s ∷ []) ne shorter in
      (
        take n s ∷ ts,
        rw (e, split_loop) (run ∙ ap some (append_assoc acc (take n s ∷ []) ts)),
        Tokens-cons s d n ts ne e t,
        Replaces-cons fuel d s n ts e t.nonempty r,
      )
]

-- For a delimiter that is not empty, split ends; its tokens join to the text and hold no
-- delimiter.
pub split-Tokens :
    (s d : Bytes) → d ≢ [] → (ts : List Bytes) × (split s d ≡ some ts) × Tokens s d ts
unfolding split
split-Tokens s d ne =
    let (ts, run, t, r) = split_loop-Tokens (suc (length s)) d s [] ne (omega arith) in (ts, run, t)

find-nil : (s : Bytes) → find s [] ≡ some 0
unfolding find has_prefix
find-nil [] = refl
find-nil (c ∷ s) = refl

-- With the empty delimiter the loop of `split` stands still: no fuel is enough.
pub split_loop-nil : (fuel : ℕ) (s : Bytes) (acc : List Bytes) → split_loop fuel [] s acc ≡ none
unfolding split_loop
split_loop-nil zero s acc = refl
split_loop-nil (suc fuel) s acc = rw (find-nil, split_loop) (split_loop-nil fuel s (acc ++ [] ∷ []))

-- When what is to be replaced is not empty, replace ends, and its result is the text split at it
-- and joined with the replacement.
pub replace-split :
    (s from to : Bytes)
    → from ≢ []
    → (ts : List Bytes) × (split s from ≡ some ts) × (replace s from to ≡ some (join ts to))
unfolding split replace
replace-split s [] to ne = absurd (ne refl)
replace-split s (x ∷ from) to ne =
    let (ts, run, t, r) = split_loop-Tokens (suc (length s)) (x ∷ from) s [] ne (omega arith) in
    (ts, run, r to [])
