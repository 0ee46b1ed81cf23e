-- ===== src/Ordered/Order.antt =====
-- The order of `std::string`, `operator<`: by the first byte that differs, a prefix first.
use lorelei.Base.{
  ◌≡◌, inl, inr, refl, Bool, true, false, [], ◌∷◌, Bytes, equal, Bool-cases, ltb, if◌then◌else◌,
  arith,
}

unfoldable pub less : Bytes → Bytes → Bool
less [] [] = false
less [] (y ∷ ys) = true
less (x ∷ xs) [] = false
less (x ∷ xs) (y ∷ ys) =
    let rest = less xs ys in if ltb x y then true else if ltb y x then false else rest

pub less_irrefl : (s : Bytes) → less s s ≡ false
unfolding less
less_irrefl [] = refl
less_irrefl (x ∷ xs) = ground (arith, less_irrefl xs)

pub less_trans : (s t u : Bytes) → less s t ≡ true → less t u ≡ true → less s u ≡ true
unfolding less
less_trans [] [] u h k = cc
less_trans [] (y ∷ t) [] h k = cc
less_trans [] (y ∷ t) (z ∷ u) h k = refl
less_trans (x ∷ s) [] u h k = cc
less_trans (x ∷ s) (y ∷ t) [] h k = cc
less_trans (x ∷ s) (y ∷ t) (z ∷ u) h k = ground (arith, less_trans s t u)

-- Of two texts that differ one is less.
pub less_total : (s t : Bytes) → less s t ≡ false → less t s ≡ false → s ≡ t
unfolding less
less_total [] [] h k = refl
less_total [] (y ∷ t) h k = cc
less_total (x ∷ s) [] h k = cc
less_total (x ∷ s) (y ∷ t) h k = ground (arith, less_total s t)

pub less-ne : (s t : Bytes) → less s t ≡ true → equal s t ≡ false
unfolding less equal
less-ne [] [] h = cc
less-ne [] (y ∷ t) h = refl
less-ne (x ∷ s) [] h = cc
less-ne (x ∷ s) (y ∷ t) h = ground (arith, less-ne s t)

pub less-ne' : (s t : Bytes) → less s t ≡ true → equal t s ≡ false
unfolding less equal
less-ne' [] [] h = cc
less-ne' [] (y ∷ t) h = refl
less-ne' (x ∷ s) [] h = cc
less-ne' (x ∷ s) (y ∷ t) h = ground (arith, less-ne' s t)

pub less-asymm : (s t : Bytes) → less s t ≡ true → less t s ≡ false
less-asymm s t h = elim (Bool-cases (less t s)) [
  | inl k ↦ absurd (ground (arith, less_trans s t s, less_irrefl s))
  | inr k ↦ k
]
