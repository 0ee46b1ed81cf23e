-- ===== src/Config/File.antt =====
-- `ConfigFile`: its sections, `getOrCreateSection`, `parseLine`, `load` and `clear` of
-- src/libs/Support/ConfigFile.cpp, and the accessors of include/lorelei/Support/ConfigFile.h. The
-- file system and the operations on paths are a parameter; a path is its text. The stack of base
-- directories has its top in front. `none` for a vector's element is undefined behaviour.
pub mod Sections
pub mod Load
use lorelei.Base.{
  ℕ, zero, suc, ◌+◌, ◌-◌, Bool, true, false, not, ◌&&◌, List, [], ◌∷◌, ◌++◌, Option, none, some,
  Bytes, codes, is_nil, is_some, length, take, drop, get_elem?, set, find, has_prefix, equal, ◌==◌,
  ltb, if◌then◌else◌, Run, ok, undefined, starved, ◌>>=◌,
}
use lorelei.Config.Line.{
  trim, is_whitespace, back, init, unquote_string, parse_quoted_string, remove_inline_comment,
}
use lorelei.Config.Section.{Section, new_section, add_key_value}
use lorelei.Index.{Index, lookup, assign, at}

-- What the code takes from `std::ifstream` and `std::filesystem`.
pub record FileSystem : Type 0 where
  pub open_file : Bytes → Option Bytes
  pub exists : Bytes → Bool
  pub parent_path : Bytes → Bytes
  pub append : Bytes → Bytes → Bytes

pub data ParseResult : Type 0 where
  success : ParseResult
  error : Bytes → Bytes → ℕ → ParseResult

pub record ConfigFile : Type 0 where
  pub sections : List Section
  pub section_index : Index
  pub current : ℕ
  pub base_dirs : List Bytes

abbrev pub global_section_name : Bytes
global_section_name = codes "$global$"

-- `clear`, which leaves nothing of what was there, and the constructor.
abbrev pub cleared : ConfigFile
cleared = record {
  sections = new_section global_section_name ∷ [];
  section_index = assign global_section_name 0 [];
  current = 0;
  base_dirs = [];
}

unfoldable pub clear : ConfigFile → ConfigFile
clear cf = cleared

-- `contains`, `get`, `at` and `count`
unfoldable pub contains : ConfigFile → Bytes → Bool
contains cf section = is_some (lookup section cf.section_index)

unfoldable pub get : ConfigFile → Bytes → Run (Option Section)
get cf section = elim (lookup section cf.section_index) [
  | none ↦ ok none
  | some i ↦ at cf.sections i >>= λ s. ok (some s)
]

unfoldable pub at_checked : ConfigFile → ℕ → Option Section
at_checked cf index = if ltb index (length cf.sections) then get_elem? cf.sections index else none

abbrev pub count : ConfigFile → ℕ
count cf = length cf.sections

unfoldable pub get_or_create_section : ConfigFile → Bytes → ℕ × ConfigFile
get_or_create_section cf name = elim (lookup name cf.section_index) [
  | some i ↦ (i, cf)
  | none ↦ (
    length cf.sections,
    record cf {
      sections = cf.sections ++ new_section name ∷ [];
      section_index = assign name (length cf.sections) cf.section_index;
    },
  )
]

-- `valueStart` and `valueEnd`: what the two loops leave of a value that is not empty
unfoldable pub skip_front : Bytes → Bytes
skip_front [] = []
skip_front (c ∷ s) = if is_whitespace c then skip_front s else c ∷ s

unfoldable pub drop_spaces : Bytes → Bytes
drop_spaces [] = []
drop_spaces (d ∷ t) = elim (drop_spaces t) [
  | [] ↦ if is_whitespace d then [] else d ∷ []
  | e ∷ u ↦ d ∷ e ∷ u
]

-- `valueEnd` stops at `valueStart`: the first byte stays.
unfoldable pub skip_back : Bytes → Bytes
unfolding drop_spaces
skip_back [] = []
skip_back (c ∷ s) = c ∷ drop_spaces s

-- The key and the value of a line, before quotes are read.
unfoldable pub split_line : Bytes → Bytes × Bytes
unfolding skip_front skip_back
split_line line = elim (find line (b'=' ∷ [])) [
  | none ↦ (trim line, [])
  | some n ↦ (trim (take n line), skip_back (skip_front (trim (drop (n + 1) line))))
]

abbrev pub message : Bytes → Bytes → ℕ → ConfigFile → Run (ParseResult × ConfigFile)
message text file line cf = ok (error text file line, cf)

-- `m_sections[m_currentSectionIndex].addKeyValue(key, value)`
unfoldable pub store : ConfigFile → Bytes → Bytes → Run ConfigFile
store cf key value = at cf.sections cf.current >>= λ s.
    add_key_value s key value >>= λ t. ok (record cf { sections = set cf.sections cf.current t })

unfoldable pub parse_section : ConfigFile → Bytes → Bytes → ℕ → Run (ParseResult × ConfigFile)
unfolding get_or_create_section
parse_section cf line file n =
    let name = trim (init (drop 1 line)) in
    if is_nil name
    then message (codes "Empty section name") file n cf
    else elim (parse_quoted_string name) [
      | none ↦ message (codes "Invalid section name format") file n cf
      | some section ↦
          let found = get_or_create_section cf section in
          ok (success, record (found.1) { current = found.0 })
    ]

unfoldable pub parse_pair : ConfigFile → Bytes → Bytes → ℕ → Run (ParseResult × ConfigFile)
unfolding split_line store
parse_pair cf line file n =
    let key = (split_line line).0 in
    let value = (split_line line).1 in
    if is_nil key
    then message (codes "Empty key") file n cf
    else elim (parse_quoted_string (unquote_string key)) [
      | none ↦ message (codes "Invalid key format") file n cf
      | some k ↦ elim (parse_quoted_string (unquote_string value)) [
        | none ↦ message (codes "Invalid value format") file n cf
        | some v ↦ store cf k v >>= λ cf'. ok (success, cf')
      ]
    ]

-- `std::getline` until the end: a text behind the last newline is a line too.
unfoldable pub get_lines : Bytes → List Bytes
get_lines [] = []
get_lines (c ∷ s) =
    if c == 10
    then [] ∷ get_lines s
    else elim (get_lines s) [ [] ↦ (c ∷ []) ∷ [] | l ∷ ls ↦ (c ∷ l) ∷ ls ]

-- `m_baseDirStack.pop_back()` of an empty vector is undefined behaviour.
unfoldable pub pop_dir : ConfigFile → Run ConfigFile
pop_dir cf = elim cf.base_dirs [ [] ↦ undefined | d ∷ ds ↦ ok (record cf { base_dirs = ds }) ]

module _ (fs : FileSystem) where
  open fs use {open_file, exists, parent_path, append}

  abbrev pub base_dir : List Bytes → Bytes
  base_dir [] = codes "."
  base_dir (d ∷ ds) = d

  -- The `include` directive; `again` is `load`.
  unfoldable pub parse_include :
      (Bytes → ConfigFile → Run (ParseResult × ConfigFile))
      → ConfigFile
      → Bytes
      → Bytes
      → ℕ
      → Run (ParseResult × ConfigFile)
  parse_include again cf line file n =
      let name = trim (drop 7 line) in
      let path = append (base_dir cf.base_dirs) (unquote_string name) in
      if is_nil name
      then message (codes "include directive requires a filename") file n cf
      else if not (exists path)
      then message (codes "Included file not found: " ++ path) file n cf
      else again path cf

  unfoldable pub parse_line :
      (Bytes → ConfigFile → Run (ParseResult × ConfigFile))
      → ConfigFile
      → Bytes
      → Bytes
      → ℕ
      → Run (ParseResult × ConfigFile)
  unfolding parse_include parse_section parse_pair
  parse_line again cf original_line file n = elim (remove_inline_comment original_line) [
    | none ↦ message (codes "Unclosed quotes or invalid escape sequence") file n cf
    | some stripped ↦
        let line = trim stripped in
        if is_nil line
        then ok (success, cf)
        else if has_prefix line (codes "include")
        then parse_include again cf line file n
        else if has_prefix line (b'[' ∷ []) && back line == b']'
        then parse_section cf line file n
        else parse_pair cf line file n
  ]

  -- The loop of `load`, with the number of lines read so far.
  unfoldable pub load_lines :
      (Bytes → ConfigFile → Run (ParseResult × ConfigFile))
      → Bytes
      → List Bytes
      → ℕ
      → ConfigFile
      → Run (ParseResult × ConfigFile)
  unfolding parse_line pop_dir clear
  load_lines again file [] n cf = pop_dir cf >>= λ cf'. ok (success, cf')
  load_lines again file (line ∷ lines) n cf = parse_line again cf line file (n + 1) >>= λ r.
      elim r.0 [
        | success ↦ load_lines again file lines (n + 1) r.1
        | error m f l ↦ pop_dir r.1 >>= λ cf'. ok (error m f l, clear cf')
      ]

  -- The fuel bounds the depth of includes.
  unfoldable pub load : ℕ → Bytes → ConfigFile → Run (ParseResult × ConfigFile)
  unfolding load_lines get_lines
  load zero filename cf = starved
  load (suc fuel) filename cf = elim (open_file filename) [
    | none ↦ message (codes "Cannot open file: " ++ filename) filename 0 cf
    | some content ↦
        let dir = parent_path filename in
        load_lines (load fuel) filename (get_lines content) 0
          (record cf { base_dirs = (if is_nil dir then codes "." else dir) ∷ cf.base_dirs })
  ]
