-- ===== src/Str/Trim/Laws.antt =====
-- `trim` takes away what stands at the ends and belongs to the set, and nothing else.
use lorelei.Base.{
  ℕ, zero, suc, ◌≤◌, Bool, true, false, ◌&&◌, inl, inr, [], ◌∷◌, ◌++◌, Option, none, some, Bytes,
  length, take, drop, take-append-drop, has_byte, ◌≡◌, refl, sym, ap, ◌∙◌, arith, Option-cases,
}
use lorelei.Str.Trim.{find_first_not_of, find_last_not_of, ltrim, rtrim, trim}

abbrev pub all_in : Bytes → Bytes → Bool
all_in chars [] = true
all_in chars (c ∷ s) = has_byte c chars && all_in chars s

abbrev pub starts_in : Bytes → Bytes → Bool
starts_in chars [] = false
starts_in chars (c ∷ s) = has_byte c chars

abbrev pub ends_in : Bytes → Bytes → Bool
ends_in chars [] = false
ends_in chars (c ∷ []) = has_byte c chars
ends_in chars (c ∷ d ∷ s) = ends_in chars (d ∷ s)

-- `t` is what is left of `s`: runs of the set stand before and behind it, and it neither starts nor
-- ends in the set.
pub record IsTrim (chars s t : Bytes) : Type 0 where
  pub before : Bytes
  pub behind : Bytes
  pub splits : s ≡ before ++ (t ++ behind)
  pub before_in : all_in chars before ≡ true
  pub behind_in : all_in chars behind ≡ true
  pub starts : starts_in chars t ≡ false
  pub ends : ends_in chars t ≡ false

-- the number of bytes that `ltrim` takes away
unfoldable pub cut : Bytes → Option ℕ → ℕ
cut s none = length s
cut s (some n) = n

pub find_first-cut :
    (s chars : Bytes)
    → (all_in chars (take (cut s (find_first_not_of s chars)) s) ≡ true)
      × (starts_in chars (drop (cut s (find_first_not_of s chars)) s) ≡ false)
      × (cut s (find_first_not_of s chars) ≤ length s)
unfolding find_first_not_of cut
find_first-cut [] chars = (refl, refl, omega arith)
find_first-cut (c ∷ s) chars = ground (arith, find_first-cut s chars)

-- What `rtrim` keeps of the text.
unfoldable pub kept : Option ℕ → ℕ
kept none = 0
kept (some n) = suc n

pub find_last-kept :
    (s chars : Bytes)
    → (all_in chars (drop (kept (find_last_not_of s chars)) s) ≡ true)
      × (ends_in chars (take (kept (find_last_not_of s chars)) s) ≡ false)
      × (kept (find_last_not_of s chars) ≤ length s)
unfolding find_last_not_of kept
find_last-kept [] chars = (refl, refl, omega arith)
find_last-kept (c ∷ s) chars = ground (arith, find_last-kept s chars)

ltrim-cut : (s chars : Bytes) → ltrim s chars ≡ drop (cut s (find_first_not_of s chars)) s
unfolding ltrim cut
ltrim-cut s chars = elim (Option-cases (find_first_not_of s chars)) [
  | inl e ↦ rw e
  | inr (n, e) ↦
      let small : n ≤ length s = rw e at ((find_first-cut s chars).2) in
      rw e (ap (λ k. drop k s) (omega arith))
]

rtrim-kept : (s chars : Bytes) → rtrim s chars ≡ take (kept (find_last_not_of s chars)) s
unfolding rtrim kept
rtrim-kept s chars = elim (Option-cases (find_last_not_of s chars)) [
  | inl e ↦ rw e (ap (λ k. take k s) {y = 0} (omega arith))
  | inr (n, e) ↦
      let small : suc n ≤ length s = rw e at ((find_last-kept s chars).2) in
      rw e (ap (λ k. take k s) {y = suc n} (omega arith))
]

pub starts_in-take :
    (chars : Bytes) (n : ℕ) (s : Bytes)
    → starts_in chars s ≡ false
    → starts_in chars (take n s) ≡ false
starts_in-take chars zero s h = refl
starts_in-take chars (suc n) [] h = refl
starts_in-take chars (suc n) (c ∷ s) h = h

-- trim takes the runs of the set off both ends of the text, and keeps what lies between.
pub trim-IsTrim : (s chars : Bytes) → IsTrim chars s (trim s chars)
unfolding trim
trim-IsTrim s chars =
    let n = cut s (find_first_not_of s chars) in
    let l = drop n s in
    let k = kept (find_last_not_of l chars) in
    let front = find_first-cut s chars in
    let back = find_last-kept l chars in
    rw (ltrim-cut, rtrim-kept)
      (record {
        before = take n s;
        behind = drop k l;
        splits = sym (ap (◌++◌ (take n s)) (take-append-drop k l) ∙ take-append-drop n s);
        before_in = front.0;
        behind_in = back.0;
        starts = starts_in-take chars k l front.1;
        ends = back.1;
      })
