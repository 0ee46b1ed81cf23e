-- ===== src/Tlc/Document/Output/Legend.antt =====
-- The line above the texts of a proc.
use lorelei.Base.{
  ℕ, ◌+◌, ◌-◌, ◌%◌, ◌/◌, ◌^◌, ◌<◌, ◌≤◌, leb, ltb, ◌≡◌, refl, ◌++◌, length, replicate, none, some,
  Bytes, codes, lt→ltb, leb→le, if◌then◌else◌, arith, inl, inr, Bool-cases, true, false,
}
use lorelei.Tlc.Document.Output.{legend_line}

-- the name in the middle of bars
abbrev pub centered : Bytes → Bytes
centered name =
    let bar = replicate ((75 - length name) / 2) b'=' in
    codes "// " ++ (bar ++ (codes " " ++ (name ++ (codes " " ++ bar))))

ltb-not_lt : (a b : ℕ) → b ≤ a → ltb a b ≡ false
ltb-not_lt a b h = ground arith

leb-not_le : (a b : ℕ) → leb a b ≡ false → b < a
leb-not_le a b h = ground arith

count-fits : (n : ℕ) → n ≤ 75 → (2 ^ 64 + 75 - n) % 2 ^ 64 / 2 % 2 ^ 32 ≡ (75 - n) / 2
count-fits n h = omega arith

count-negative : (n : ℕ) → 75 < n → n < 2 ^ 31 → 2 ^ 31 ≤ (2 ^ 64 + 75 - n) % 2 ^ 64 / 2 % 2 ^ 32
count-negative n h k = omega arith

-- A name that is not longer than the banner stands in its middle; for a longer one, of fewer
-- than 2^31 bytes, the line throws.
pub legend_line-centered :
    (name : Bytes)
    → length name < 2 ^ 31
    → legend_line name ≡ (if leb (length name) 75 then some (centered name) else none)
unfolding legend_line
legend_line-centered name h =
    let n = length name in
    let count = (2 ^ 64 + 75 - n) % 2 ^ 64 / 2 % 2 ^ 32 in
    elim (Bool-cases (leb n 75)) [
      | inl short ↦
          let fits : ltb ((75 - n) / 2) (2 ^ 31) ≡ true = lt→ltb _ _ (omega arith) in
          rw (short, count-fits n (leb→le n 75 short), fits) refl
      | inr long ↦
          rw (long, ltb-not_lt count (2 ^ 31) (count-negative n (leb-not_le n 75 long) h)) refl
    ]
