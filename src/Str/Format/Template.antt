-- ===== src/Str/Format/Template.antt =====
-- What `format` makes of a format text, told by the pieces that the text is made of.
use Prim.Native.Nat.add
use mathlib.Core.List.{flatten}
use lorelei.Base.{
  ℕ, zero, suc, ◌+◌, ◌-◌, ◌*◌, ◌≤◌, Bool, true, false, ◌&&◌, List, [], ◌∷◌, ◌++◌, none, some, Bytes,
  length, ◌==◌, ok, ◌≡◌, refl, ◌∙◌, arith, append_assoc, append-nil, has_byte,
}
use lorelei.Str.Format.{is_digit, int_max, arg_at, format_loop}

-- A plain run, `%%`, a reference `%N` by the first digit and the others, and a `%` that starts
-- neither.
pub data Piece : Type 0 where
  text : Bytes → Piece
  percent : Piece
  ref : ℕ → Bytes → Piece
  lone : Piece

abbrev pub piece_source : Piece → Bytes
piece_source (text t) = t
piece_source percent = b'%' ∷ b'%' ∷ []
piece_source (ref d ds) = b'%' ∷ d ∷ ds
piece_source lone = b'%' ∷ []

abbrev pub source : List Piece → Bytes
source [] = []
source (x ∷ xs) = piece_source x ++ source xs

abbrev pub number : ℕ → Bytes → ℕ
number n [] = n
number n (d ∷ ds) = number (n * 10 + (d - b'0')) ds

abbrev pub all_digits : Bytes → Bool
all_digits [] = true
all_digits (d ∷ ds) = is_digit d && all_digits ds

abbrev pub starts_digit : Bytes → Bool
starts_digit [] = false
starts_digit (c ∷ cs) = is_digit c

abbrev pub starts_percent : Bytes → Bool
starts_percent [] = false
starts_percent (c ∷ cs) = c == b'%'

-- The pieces are read back as they are told: a run has no `%`, a reference takes all the digits
-- that stand there and its number fits an `int`, and nothing joins a lone `%`.
abbrev pub IsFormat : List Piece → Type 0
IsFormat [] = Unit
IsFormat (text t ∷ xs) = (has_byte b'%' t ≡ false) × IsFormat xs
IsFormat (percent ∷ xs) = IsFormat xs
IsFormat (ref d ds ∷ xs) =
    (is_digit d ≡ true)
    × (all_digits ds ≡ true)
    × (number (d - b'0') ds ≤ int_max)
    × (starts_digit (source xs) ≡ false)
    × IsFormat xs
IsFormat (lone ∷ xs) =
    (starts_digit (source xs) ≡ false) × (starts_percent (source xs) ≡ false) × IsFormat xs

abbrev pub piece_meaning : List Bytes → Piece → Bytes
piece_meaning args (text t) = t
piece_meaning args percent = b'%' ∷ []
piece_meaning args (ref d ds) = elim (arg_at args (number (d - b'0') ds)) [
  | none ↦ b'%' ∷ d ∷ ds
  | some arg ↦ arg
]
piece_meaning args lone = b'%' ∷ []

abbrev pub meaning : List Bytes → List Piece → Bytes
meaning args [] = []
meaning args (x ∷ xs) = piece_meaning args x ++ meaning args xs

format_loop-byte :
    (c : ℕ) (rest : Bytes) (fuel : ℕ) (args : List Bytes) (segment : Bytes) (parts : List Bytes)
    → (c == b'%') ≡ false
    → format_loop (suc fuel) args segment (c ∷ rest) parts
      ≡ format_loop fuel args (segment ++ c ∷ []) rest parts
unfolding format_loop
format_loop-byte c [] fuel args segment parts h = refl
format_loop-byte c (d ∷ rest) fuel args segment parts h = rw h

pub format_loop-text :
    (t rest : Bytes) (fuel : ℕ) (args : List Bytes) (segment : Bytes) (parts : List Bytes)
    → has_byte b'%' t ≡ false
    → format_loop (length t + fuel) args segment (t ++ rest) parts
      ≡ format_loop fuel args (segment ++ t) rest parts
unfolding has_byte
format_loop-text [] rest fuel args segment parts h = rw (add.zero, append-nil)
format_loop-text (c ∷ cs) rest fuel args segment parts h = rw add.suc (
    format_loop-byte c (cs ++ rest) (length cs + fuel) args segment parts (ground arith)
    ∙ format_loop-text cs rest fuel args (segment ++ c ∷ []) parts (ground arith)
    ∙ rw append_assoc)

pub digit-ne_percent : (d : ℕ) → is_digit d ≡ true → (d == b'%') ≡ false
digit-ne_percent d h = ground arith

module _ (args : List Bytes) where
  -- From this state the loop ends, and what it appends is the segment and the meaning of `xs`.
  abbrev Formats : List Piece → ℕ → Bytes → List Bytes → Type 0
  Formats xs fuel segment parts =
      (ps : List Bytes) × (format_loop fuel args segment (source xs) parts ≡ ok ps)
      × (flatten ps ≡ flatten parts ++ (segment ++ meaning args xs))
