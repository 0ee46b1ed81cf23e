-- ===== src/Str/Format/Overflow.antt =====
-- A reference whose number does not fit an `int`.
use lorelei.Base.{
  ℕ, suc, ◌+◌, ◌-◌, ◌*◌, ◌<◌, ◌≤◌, true, false, List, [], ◌∷◌, ◌++◌, Bytes, length, undefined, ◌≡◌,
  ◌∙◌, subst, arith, length-append, has_byte,
}
use lorelei.Str.Format.Template.{number, all_digits, format_loop-text, digit-ne_percent}
use lorelei.Str.Format.{is_digit, int_max, read_index, format_loop, format}

read_index-undefined :
    (ds : Bytes) (n : ℕ) (seen rest : Bytes)
    → all_digits ds ≡ true
    → n ≤ int_max
    → int_max < number n ds
    → read_index n seen (ds ++ rest) ≡ undefined
unfolding read_index
read_index-undefined [] n seen rest h le lt = absurd (omega arith)
read_index-undefined (d ∷ ds) n seen rest h le lt =
    ground (arith, read_index-undefined ds (n * 10 + (d - b'0')) (seen ++ d ∷ []) rest)

format_loop-undefined :
    (d : ℕ) (ds rest : Bytes) (fuel : ℕ) (args : List Bytes) (segment : Bytes) (parts : List Bytes)
    → is_digit d ≡ true
    → all_digits ds ≡ true
    → int_max < number (d - b'0') ds
    → format_loop (suc fuel) args segment (b'%' ∷ d ∷ (ds ++ rest)) parts ≡ undefined
unfolding format_loop
format_loop-undefined d ds rest fuel args segment parts h k lt =
    rw (
      digit-ne_percent d h,
      h,
      read_index-undefined ds (d - b'0') (d ∷ []) rest k (ground arith) lt,
    )

-- When the first reference of a format text has a number over INT_MAX, format is undefined
-- behaviour, whatever arguments are given: the sum that reads the number overflows an int.
pub format-undefined :
    (t : Bytes) (d : ℕ) (ds rest : Bytes) (args : List Bytes)
    → has_byte b'%' t ≡ false
    → is_digit d ≡ true
    → all_digits ds ≡ true
    → int_max < number (d - b'0') ds
    → format (t ++ b'%' ∷ d ∷ (ds ++ rest)) args ≡ undefined
unfolding format
format-undefined t d ds rest args ht hd hs lt =
    let s = b'%' ∷ d ∷ (ds ++ rest) in
    let n : length t + suc (length s) ≡ suc (length (t ++ s)) = omega (arith, length-append t s) in
    let e : format_loop (suc (length (t ++ s))) args [] (t ++ s) [] ≡ undefined =
      subst (λ k. format_loop k args [] (t ++ s) [] ≡ undefined) n
        (format_loop-text t s (suc (length s)) args [] [] ht
          ∙ format_loop-undefined d ds rest (length s) args t [] hd hs lt) in
    rw e
