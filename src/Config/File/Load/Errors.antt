-- ===== src/Config/File/Load/Errors.antt =====
-- Errors in a file, and in a file that it includes.
use lorelei.Base.{
  ℕ, zero, suc, ◌+◌, ◌≡◌, ◌≢◌, List, [], ◌∷◌, ◌++◌, true, false, none, some, Bytes, drop, Run, ok,
  undefined, ◌>>=◌, >>=-eq-ok, Option-cases, inl, inr, is_nil, has_prefix, codes, if◌then◌else◌,
}
use lorelei.Config.File.{
  FileSystem, ParseResult, success, error, ConfigFile, cleared, clear, pop_dir, parse_include,
  parse_line, load_lines, load, get_lines, base_dir,
}
use lorelei.Config.Line.{trim, unquote_string, remove_inline_comment}

module _ (fs : FileSystem) where
  -- An error that the loop returns comes with the cleared state.
  load_lines-cleared :
      (again : Bytes → ConfigFile → Run (ParseResult × ConfigFile)) (file : Bytes)
      (lines : List Bytes) (n : ℕ) (cf : ConfigFile) (m f : Bytes) (l : ℕ) (cf' : ConfigFile)
      → load_lines fs again file lines n cf ≡ ok (error m f l, cf')
      → cf' ≡ cleared
  unfolding load_lines clear
  load_lines-cleared again file [] n cf m f l cf' h =
      let (popped, run, e) = >>=-eq-ok (pop_dir cf) _ h in cc e
  load_lines-cleared again file (line ∷ lines) n cf m f l cf' h =
      let (r, run, e) = >>=-eq-ok (parse_line fs again cf line file (n + 1)) _ h in
      go r.0 r.1 (λ cf1. load_lines-cleared again file lines (n + 1) cf1 m f l cf') e
    where
      go :
          (r : ParseResult) (cf1 : ConfigFile)
          → ((cf2 : ConfigFile)
              → load_lines fs again file lines (n + 1) cf2 ≡ ok (error m f l, cf')
              → cf' ≡ cleared)
          → (elim r [
            | success ↦ load_lines fs again file lines (n + 1) cf1
            | error m' f' l' ↦ pop_dir cf1 >>= λ cf2. ok (error m' f' l', clear cf2)
          ])
            ≡ ok (error m f l, cf')
          → cf' ≡ cleared
      go success cf1 rest e = rest cf1 e
      go (error m' f' l') cf1 rest e = let (cf2, popped, k) = >>=-eq-ok (pop_dir cf1) _ e in cc k

  -- The line is an `include` of the file `q`.
  pub record Includes (cf : ConfigFile) (original q : Bytes) : Type 0 where
    pub stripped : Bytes
    pub strips : remove_inline_comment original ≡ some stripped
    pub filled : is_nil (trim stripped) ≡ false
    pub starts : has_prefix (trim stripped) (codes "include") ≡ true
    pub named : is_nil (trim (drop 7 (trim stripped))) ≡ false
    pub resolves :
        fs.append (base_dir fs cf.base_dirs) (unquote_string (trim (drop 7 (trim stripped)))) ≡ q
    pub found : fs.exists q ≡ true

  parse_line-Includes :
      (again : Bytes → ConfigFile → Run (ParseResult × ConfigFile)) (cf : ConfigFile)
      (original q file : Bytes) (n : ℕ)
      → Includes cf original q
      → parse_line fs again cf original file n ≡ again q cf
  unfolding parse_line parse_include
  parse_line-Includes again cf original q file n i =
      rw (i.strips, parse_line, i.filled, i.starts, i.named, i.resolves, i.found)

  -- An error in a file that could be opened leaves the cleared state.
  pub load-cleared :
      (fuel : ℕ) (filename : Bytes) (cf : ConfigFile) (m f : Bytes) (l : ℕ) (cf' : ConfigFile)
      → fs.open_file filename ≢ none
      → load fs fuel filename cf ≡ ok (error m f l, cf')
      → cf' ≡ cleared
  unfolding load
  load-cleared zero filename cf m f l cf' there h = cc
  load-cleared (suc fuel) filename cf m f l cf' there h =
      elim (Option-cases (fs.open_file filename)) [
        | inl e ↦ absurd (there e)
        | inr (content, e) ↦
            load_lines-cleared (load fs fuel) filename (get_lines content) 0 _ m f l cf'
              (rw (e, load) at h)
      ]

  -- The lines `read` are read with success, from `cf` after `n` lines to `last` after `k`.
  pub data Reads (again : Bytes → ConfigFile → Run (ParseResult × ConfigFile)) (file : Bytes)
      (last : ConfigFile) (k : ℕ) : ℕ → ConfigFile → List Bytes → Type 0 where
    all_read : {n : ℕ} {cf : ConfigFile} → n ≡ k → cf ≡ last → Reads again file last k n cf []
    line_read :
        {n : ℕ} {cf cf' : ConfigFile} {line : Bytes} {lines : List Bytes}
        → parse_line fs again cf line file (n + 1) ≡ ok (success, cf')
        → Reads again file last k (n + 1) cf' lines
        → Reads again file last k n cf (line ∷ lines)

  load_lines-Reads :
      {again : Bytes → ConfigFile → Run (ParseResult × ConfigFile)} {file : Bytes}
      {last : ConfigFile} {k : ℕ} {n : ℕ} {cf : ConfigFile} {read : List Bytes} (rest : List Bytes)
      → Reads again file last k n cf read
      → load_lines fs again file (read ++ rest) n cf ≡ load_lines fs again file rest k last
  unfolding load_lines
  load_lines-Reads rest (all_read e f) = rw (e, f)
  load_lines-Reads rest (line_read e r) = rw e (load_lines-Reads rest r)

  -- When a file can be opened, its lines up to an include are read with success, and the
  -- included file can be opened and gives an error, load of the including file is undefined
  -- behaviour: the error has cleared the stack of base directories, and load pops it once more.
  pub load-undefined :
      (fuel : ℕ) (filename content : Bytes) (cf : ConfigFile) (read : List Bytes) (line : Bytes)
      (rest : List Bytes) (at_line : ConfigFile) (k : ℕ) (q m f : Bytes) (l : ℕ) (cf' : ConfigFile)
      → fs.open_file filename ≡ some content
      → get_lines content ≡ read ++ line ∷ rest
      → Reads
          (load fs fuel)
          filename
          at_line
          k
          0
          (record cf {
            base_dirs =
                (if is_nil (fs.parent_path filename) then codes "." else fs.parent_path filename)
                ∷ cf.base_dirs;
          })
          read
      → Includes at_line line q
      → fs.open_file q ≢ none
      → load fs fuel q at_line ≡ ok (error m f l, cf')
      → load fs (suc fuel) filename cf ≡ undefined
  unfolding load load_lines pop_dir
  load-undefined fuel filename content cf read line rest at_line k q m f l cf' op ls r i there h =
      let gone = load-cleared fuel q at_line m f l cf' there h in
      rw (
        op,
        load,
        ls,
        load_lines-Reads (line ∷ rest) r,
        load_lines,
        parse_line-Includes (load fs fuel) at_line line q filename (k + 1) i,
        h,
        gone,
      )
