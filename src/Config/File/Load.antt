-- ===== src/Config/File/Load.antt =====
-- What one line and one file do to the state.
pub mod Errors
pub mod Plain
use lorelei.Base.{
  ℕ, zero, suc, ◌+◌, ◌<◌, ◌≤◌, ◌≡◌, ◌≢◌, refl, sym, ap, ◌∙◌, ◌⊎◌, List, [], ◌∷◌, ◌++◌, Bool, true,
  false, Option, none, some, Bytes, length, drop, get_elem?-lt_length, Run, ok, undefined, starved,
  ◌>>=◌, >>=-eq-ok, Option-cases, Bool-cases, inl, inr, arith, is_nil, has_prefix, ◌&&◌, ◌==◌,
  codes, if◌then◌else◌,
}
use lorelei.Config.File.Sections.{
  IsValid, cleared-IsValid, Created-current, get_or_create_section-Created, Stored, store-Stored,
}
use lorelei.Config.File.{
  FileSystem, ParseResult, success, error, ConfigFile, cleared, clear, message,
  get_or_create_section, split_line, store, parse_section, parse_pair, pop_dir, parse_include,
  parse_line, load_lines, load, base_dir, get_lines,
}
use lorelei.Config.Line.{
  trim, init, back, unquote_string, parse_quoted_string, remove_inline_comment,
}

-- A valid state stays valid; a success leaves the base directories as they were; an error leaves
-- the state as it was, or cleared.
abbrev pub Steps : ConfigFile → ParseResult → ConfigFile → Type 0
Steps cf success cf' = IsValid cf' × (cf'.base_dirs ≡ cf.base_dirs)
Steps cf (error m f l) cf' = (cf' ≡ cf) ⊎ (cf' ≡ cleared)

-- The same of a call, if it returns.
abbrev pub StepsTo : ConfigFile → Run (ParseResult × ConfigFile) → Type 0
StepsTo cf (ok r) = Steps cf r.0 r.1
StepsTo cf undefined = Unit
StepsTo cf starved = Unit

-- A line that is no `include` returns, and its error names the file and the line.
abbrev pub Returns : ConfigFile → Bytes → ℕ → Run (ParseResult × ConfigFile) → Type 0
Returns cf file n (ok (success, cf')) = IsValid cf' × (cf'.base_dirs ≡ cf.base_dirs)
Returns cf file n (ok (error m f l, cf')) = (f ≡ file) × (l ≡ n) × (cf' ≡ cf)
Returns cf file n undefined = ⊥
Returns cf file n starved = ⊥

Returns-StepsTo :
    (cf : ConfigFile) (file : Bytes) (n : ℕ) (m : Run (ParseResult × ConfigFile))
    → Returns cf file n m
    → StepsTo cf m
Returns-StepsTo cf file n (ok (success, cf')) h = h
Returns-StepsTo cf file n (ok (error m f l, cf')) h = inl h.2
Returns-StepsTo cf file n undefined h = tt
Returns-StepsTo cf file n starved h = tt

abbrev pub Keeps : (Bytes → ConfigFile → Run (ParseResult × ConfigFile)) → Type 0
Keeps again = (p : Bytes) (cf : ConfigFile) → IsValid cf → StepsTo cf (again p cf)

pub parse_section-Returns :
    (cf : ConfigFile) (line file : Bytes) (n : ℕ)
    → IsValid cf
    → Returns cf file n (parse_section cf line file n)
unfolding parse_section
parse_section-Returns cf line file n v =
    let name = trim (init (drop 1 line)) in
    elim (Bool-cases (is_nil name)) [
      | inl e ↦ rw (e, parse_section) (refl, refl, refl)
      | inr e ↦ elim (Option-cases (parse_quoted_string name)) [
        | inl q ↦ rw (e, q, parse_section) (refl, refl, refl)
        | inr (section, q) ↦
            let c = get_or_create_section-Created cf section v in
            rw (e, q, parse_section) (Created-current cf section _ c, c.dirs_same)
      ]
    ]

pub parse_pair-Returns :
    (cf : ConfigFile) (line file : Bytes) (n : ℕ)
    → IsValid cf
    → Returns cf file n (parse_pair cf line file n)
unfolding parse_pair
parse_pair-Returns cf line file n v =
    let key = (split_line line).0 in
    let value = (split_line line).1 in
    elim (Bool-cases (is_nil key)) [
      | inl e ↦ rw (e, parse_pair) (refl, refl, refl)
      | inr e ↦ elim (Option-cases (parse_quoted_string (unquote_string key))) [
        | inl q ↦ rw (e, q, parse_pair) (refl, refl, refl)
        | inr (k, q) ↦ elim (Option-cases (parse_quoted_string (unquote_string value))) [
          | inl w ↦ rw (e, q, w, parse_pair) (refl, refl, refl)
          | inr (x, w) ↦
              let (cf', run, st) = store-Stored cf k x v in
              rw (e, q, w, parse_pair, run) (st.valid, st.dirs_same)
        ]
      ]
    ]

pub pop_dir-cons :
    (cf : ConfigFile) (d : Bytes) (ds : List Bytes)
    → cf.base_dirs ≡ d ∷ ds
    → pop_dir cf ≡ ok (record cf { base_dirs = ds })
unfolding pop_dir
pop_dir-cons cf d ds e = rw (e, pop_dir)

-- The end of the loop in `load` on an error: whatever the stack holds.
pop_dir-StepsTo :
    (outer : ConfigFile) (m f : Bytes) (l : ℕ) (popped : Run ConfigFile)
    → StepsTo outer (popped >>= λ cf'. ok (error m f l, clear cf'))
unfolding clear
pop_dir-StepsTo outer m f l (ok cf') = inr refl
pop_dir-StepsTo outer m f l undefined = tt
pop_dir-StepsTo outer m f l starved = tt

module _ (fs : FileSystem) where
  parse_include-StepsTo :
      (again : Bytes → ConfigFile → Run (ParseResult × ConfigFile)) (cf : ConfigFile)
      (line file : Bytes) (n : ℕ)
      → Keeps again
      → IsValid cf
      → StepsTo cf (parse_include fs again cf line file n)
  unfolding parse_include
  parse_include-StepsTo again cf line file n keeps v =
      let name = trim (drop 7 line) in
      let path = fs.append (base_dir fs cf.base_dirs) (unquote_string name) in
      elim (Bool-cases (is_nil name)) [
        | inl e ↦ rw (e, parse_include) (inl refl)
        | inr e ↦ elim (Bool-cases (fs.exists path)) [
          | inl x ↦ rw (e, x, parse_include) (keeps path cf v)
          | inr x ↦ rw (e, x, parse_include) (inl refl)
        ]
      ]

  pub parse_line-StepsTo :
      (again : Bytes → ConfigFile → Run (ParseResult × ConfigFile)) (cf : ConfigFile)
      (original file : Bytes) (n : ℕ)
      → Keeps again
      → IsValid cf
      → StepsTo cf (parse_line fs again cf original file n)
  unfolding parse_line
  parse_line-StepsTo again cf original file n keeps v =
      elim (Option-cases (remove_inline_comment original)) [
        | inl e ↦ rw (e, parse_line) (inl refl)
        | inr (stripped, e) ↦
            let line = trim stripped in
            elim (Bool-cases (is_nil line)) [
              | inl a ↦ rw (e, parse_line, a) (v, refl)
              | inr a ↦ elim (Bool-cases (has_prefix line (codes "include"))) [
                | inl b ↦
                    rw (e, parse_line, a, b) (parse_include-StepsTo again cf line file n keeps v)
                | inr b ↦ elim (Bool-cases (has_prefix line (b'[' ∷ []) && back line == b']')) [
                  | inl c ↦
                      rw (e, parse_line, a, b, c)
                        (Returns-StepsTo cf file n _ (parse_section-Returns cf line file n v))
                  | inr c ↦
                      rw (e, parse_line, a, b, c)
                        (Returns-StepsTo cf file n _ (parse_pair-Returns cf line file n v))
                ]
              ]
            ]
      ]

  -- The loop under the base directory `dir` that `load` has pushed.
  load_lines-StepsTo :
      (again : Bytes → ConfigFile → Run (ParseResult × ConfigFile)) (file : Bytes)
      (lines : List Bytes) (n : ℕ) (cf outer : ConfigFile) (dir : Bytes)
      → Keeps again
      → IsValid cf
      → cf.base_dirs ≡ dir ∷ outer.base_dirs
      → StepsTo outer (load_lines fs again file lines n cf)
  unfolding load_lines
  load_lines-StepsTo again file [] n cf outer dir keeps v dirs =
      rw (pop_dir-cons cf dir outer.base_dirs dirs) (
        record {
          indexed = v.indexed;
          current_in = v.current_in;
          each = v.each;
          global_first = v.global_first;
        },
        refl,
      )
  load_lines-StepsTo again file (line ∷ lines) n cf outer dir keeps v dirs =
      go (parse_line fs again cf line file (n + 1))
        (parse_line-StepsTo again cf line file (n + 1) keeps v)
        (λ cf' v' same.
          load_lines-StepsTo again file lines (n + 1) cf' outer dir keeps v' (same ∙ dirs))
    where
      go :
          (m : Run (ParseResult × ConfigFile))
          → StepsTo cf m
          → ((cf' : ConfigFile)
              → IsValid cf'
              → cf'.base_dirs ≡ cf.base_dirs
              → StepsTo outer (load_lines fs again file lines (n + 1) cf'))
          → StepsTo outer (
              m >>= λ r. elim r.0 [
                | success ↦ load_lines fs again file lines (n + 1) r.1
                | error m' f l ↦ pop_dir r.1 >>= λ cf'. ok (error m' f l, clear cf')
              ])
      go (ok (success, cf')) h rest = rest cf' h.0 h.1
      go (ok (error m' f l, cf')) h rest = pop_dir-StepsTo outer m' f l (pop_dir cf')
      go undefined h rest = tt
      go starved h rest = tt

  load-Keeps : (fuel : ℕ) → Keeps (load fs fuel)
  unfolding load
  load-Keeps zero filename cf v = tt
  load-Keeps (suc fuel) filename cf v = elim (Option-cases (fs.open_file filename)) [
    | inl e ↦ rw (e, load) (inl refl)
    | inr (content, e) ↦
        let dir = fs.parent_path filename in
        rw (e, load)
          (load_lines-StepsTo (load fs fuel) filename (get_lines content) 0 _ cf
            (if is_nil dir then codes "." else dir) (load-Keeps fuel)
            (record {
              indexed = v.indexed;
              current_in = v.current_in;
              each = v.each;
              global_first = v.global_first;
            })
            refl)
  ]

  -- A call of load from a valid state that returns with success leaves a valid state and the
  -- stack of base directories as it was; one that returns an error leaves the state before the
  -- call, or the cleared one.
  pub load-StepsTo :
      (fuel : ℕ) (filename : Bytes) (cf : ConfigFile)
      → IsValid cf
      → StepsTo cf (load fs fuel filename cf)
  load-StepsTo fuel filename cf v = load-Keeps fuel filename cf v
