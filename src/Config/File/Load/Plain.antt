-- ===== src/Config/File/Load/Plain.antt =====
-- Files with no `include`.
use lorelei.Base.{
  ℕ, suc, ◌+◌, ◌≤◌, ◌≡◌, refl, subst, ◌∙◌, List, [], ◌∷◌, Bool, false, Option, none, some, Bytes,
  length, Run, ok, undefined, starved, ◌>>=◌, Option-cases, Bool-cases, inl, inr, arith, is_nil,
  has_prefix, codes, if◌then◌else◌, All, ◌&&◌, ◌==◌,
}
use lorelei.Config.File.Load.{Returns, pop_dir-cons, parse_section-Returns, parse_pair-Returns}
use lorelei.Config.File.Sections.{IsValid}
use lorelei.Config.File.{
  FileSystem, ParseResult, success, error, ConfigFile, cleared, clear, pop_dir, parse_line,
  load_lines, load, get_lines,
}
use lorelei.Config.Line.{trim, remove_inline_comment, back}

abbrev starts_include : Option Bytes → Bool
starts_include none = false
starts_include (some stripped) = has_prefix (trim stripped) (codes "include")

abbrev pub is_include : Bytes → Bool
is_include original = starts_include (remove_inline_comment original)

-- What `load` gives for a file of `count` lines: a valid state with the base directories as before,
-- or the cleared state and an error that names the file and one of its lines.
pub data Loads (cf : ConfigFile) (file : Bytes) (count : ℕ)
    : ParseResult → ConfigFile → Type 0 where
  loaded :
      {cf' : ConfigFile}
      → IsValid cf'
      → cf'.base_dirs ≡ cf.base_dirs
      → Loads cf file count success cf'
  refused :
      {m f : Bytes} {l : ℕ} {cf' : ConfigFile}
      → f ≡ file
      → 1 ≤ l
      → l ≤ count
      → cf' ≡ cleared
      → Loads cf file count (error m f l) cf'

module _ (fs : FileSystem) where
  parse_line-Returns :
      (again : Bytes → ConfigFile → Run (ParseResult × ConfigFile)) (cf : ConfigFile)
      (original file : Bytes) (n : ℕ)
      → is_include original ≡ false
      → IsValid cf
      → Returns cf file n (parse_line fs again cf original file n)
  unfolding parse_line
  parse_line-Returns again cf original file n plain v =
      elim (Option-cases (remove_inline_comment original)) [
        | inl e ↦ rw (e, parse_line) (refl, refl, refl)
        | inr (stripped, e) ↦
            let line = trim stripped in
            let b : has_prefix line (codes "include") ≡ false =
              subst (λ o. starts_include o ≡ false) e plain in
            elim (Bool-cases (is_nil line)) [
              | inl a ↦ rw (e, parse_line, a) (v, refl)
              | inr a ↦ elim (Bool-cases (has_prefix line (b'[' ∷ []) && back line == b']')) [
                | inl c ↦ rw (e, parse_line, a, b, c) (parse_section-Returns cf line file n v)
                | inr c ↦ rw (e, parse_line, a, b, c) (parse_pair-Returns cf line file n v)
              ]
            ]
      ]

  abbrev LoadsTo : ConfigFile → Bytes → ℕ → Run (ParseResult × ConfigFile) → Type 0
  LoadsTo cf file count m =
      (r : ParseResult) × (cf' : ConfigFile) × (m ≡ ok (r, cf')) × Loads cf file count r cf'

  load_lines-Loads :
      (again : Bytes → ConfigFile → Run (ParseResult × ConfigFile)) (file : Bytes)
      (lines : List Bytes) (n count : ℕ) (cf outer : ConfigFile) (dir : Bytes)
      → All (λ line. is_include line ≡ false) lines
      → IsValid cf
      → cf.base_dirs ≡ dir ∷ outer.base_dirs
      → n + length lines ≡ count
      → LoadsTo outer file count (load_lines fs again file lines n cf)
  unfolding load_lines
  load_lines-Loads again file [] n count cf outer dir plain v dirs total = (
    success,
    record cf { base_dirs = outer.base_dirs },
    rw (pop_dir-cons cf dir outer.base_dirs dirs),
    loaded
        (record {
          indexed = v.indexed;
          current_in = v.current_in;
          each = v.each;
          global_first = v.global_first;
        })
        refl,
  )
  load_lines-Loads again file (line ∷ lines) n count cf outer dir plain v dirs total =
      go (parse_line fs again cf line file (n + 1))
        (parse_line-Returns again cf line file (n + 1) plain.0 v)
        (λ cf' v' same.
          load_lines-Loads again file lines (n + 1) count cf' outer dir plain.1 v' (same ∙ dirs)
            (omega arith))
    where
      go :
          (m : Run (ParseResult × ConfigFile))
          → Returns cf file (n + 1) m
          → ((cf' : ConfigFile)
              → IsValid cf'
              → cf'.base_dirs ≡ cf.base_dirs
              → LoadsTo outer file count (load_lines fs again file lines (n + 1) cf'))
          → LoadsTo outer file count (
              m >>= λ r. elim r.0 [
                | success ↦ load_lines fs again file lines (n + 1) r.1
                | error m' f l ↦ pop_dir r.1 >>= λ cf'. ok (error m' f l, clear cf')
              ])
      go (ok (success, cf')) h rest = rest cf' h.0 h.1
      go (ok (error m' f l, cf')) h rest = (
        error m' f l,
        cleared,
        rw (pop_dir-cons cf' dir outer.base_dirs (rw h.2 dirs)) (unfold clear in refl),
        refused h.0 (omega (arith, h.1)) (omega (arith, h.1)) refl,
      )
      go undefined h rest = absurd h
      go starved h rest = absurd h

  -- From a valid state, load of a file that can be opened and has no include returns: with
  -- success, a valid state and the base directories as before, or with an error that names the
  -- file and one of its lines, and the cleared state.
  pub load-Loads :
      (fuel : ℕ) (filename content : Bytes) (cf : ConfigFile)
      → fs.open_file filename ≡ some content
      → All (λ line. is_include line ≡ false) (get_lines content)
      → IsValid cf
      → (r : ParseResult) × (cf' : ConfigFile) × (load fs (suc fuel) filename cf ≡ ok (r, cf'))
        × Loads cf filename (length (get_lines content)) r cf'
  unfolding load
  load-Loads fuel filename content cf op plain v =
      let dir = fs.parent_path filename in
      rw (op, load)
        (load_lines-Loads (load fs fuel) filename (get_lines content) 0 (length (get_lines content))
          _ cf (if is_nil dir then codes "." else dir) plain
          (record {
            indexed = v.indexed;
            current_in = v.current_in;
            each = v.each;
            global_first = v.global_first;
          })
          refl (omega arith))
