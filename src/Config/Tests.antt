-- ===== src/Config/Tests.antt =====
-- The properties of the configuration files at concrete ones.
use lorelei.Base.{
  ◌≡◌, refl, List, [], ◌∷◌, ◌++◌, none, some, Bytes, codes, has_byte, equal, has_prefix, ok,
  undefined, if◌then◌else◌,
}
use lorelei.Config.Line.{parse_quoted_string, unquote_string, remove_inline_comment, trim}
use lorelei.Config.Line.Laws.{
  escape, parse_quoted_string-escape, parse_quoted_string-unquote_string,
}
use lorelei.Config.Line.Laws.Comment.{
  Chunk, plain, quoted, escaped, line_source, remove_inline_comment-comment,
  remove_inline_comment-chunks,
}
use lorelei.Config.File.{FileSystem, ParseResult, ConfigFile, cleared, load, get_lines}
use lorelei.Config.File.Sections.{cleared-IsValid}
use lorelei.Config.File.Load.{StepsTo, load-StepsTo}
use lorelei.Config.File.Load.Plain.{Loads, load-Loads}
use lorelei.Config.File.Load.Errors.{all_read, load-undefined}

parse_quoted_string-escape_example :
    parse_quoted_string (b'"' ∷ (escape (codes "a\tb\"c") ++ b'"' ∷ [])) ≡ some (codes "a\tb\"c")
parse_quoted_string-escape_example = parse_quoted_string-escape b'"' (codes "a\tb\"c") refl

parse_quoted_string-unquote_string_example :
    parse_quoted_string (unquote_string (b'"' ∷ (codes "a\\n" ++ b'"' ∷ []))) ≡ some (codes "a\\n")
parse_quoted_string-unquote_string_example =
    parse_quoted_string-unquote_string b'"' (codes "a\\n") refl refl

abbrev chunks : List Chunk
chunks = plain (codes "key = ") ∷ quoted b'"' (codes "a#b") ∷ escaped b'#' ∷ []

remove_inline_comment-comment_example :
    remove_inline_comment (line_source chunks ++ b'#' ∷ codes " note") ≡ some (line_source chunks)
unfolding has_byte
remove_inline_comment-comment_example =
    remove_inline_comment-comment chunks (codes " note") (refl, ((refl, refl, refl), (tt, tt)))

remove_inline_comment-chunks_example :
    remove_inline_comment (line_source chunks) ≡ some (line_source chunks)
unfolding has_byte
remove_inline_comment-chunks_example =
    remove_inline_comment-chunks chunks (refl, ((refl, refl, refl), (tt, tt)))

-- A file with a section and a pair, one that includes another, and one with a section in error.
abbrev good : Bytes
good = codes "[log]\nlevel = 3 # note\n"

abbrev main : Bytes
main = codes "include bad.ini\n"

abbrev bad : Bytes
bad = codes "[]\n"

abbrev disk : FileSystem
disk = record {
  open_file = λ p.
      if equal p (codes "good.ini")
      then some good
      else if equal p (codes "main.ini")
      then some main
      else if equal p (codes "bad.ini")
      then some bad
      else none;
  exists = λ p. equal p (codes "bad.ini");
  parent_path = λ p. [];
  append = λ p q. q;
}

load-Loads_example :
    (r : ParseResult) × (cf : ConfigFile) × (load disk 1 (codes "good.ini") cleared ≡ ok (r, cf))
    × Loads cleared (codes "good.ini") 2 r cf
unfolding equal get_lines remove_inline_comment trim has_prefix has_byte
load-Loads_example =
    load-Loads disk 0 (codes "good.ini") good cleared refl (refl, (refl, tt)) cleared-IsValid

load-StepsTo_example : StepsTo cleared (load disk 2 (codes "good.ini") cleared)
load-StepsTo_example = load-StepsTo disk 2 (codes "good.ini") cleared cleared-IsValid

abbrev at_include : ConfigFile
at_include = record cleared { base_dirs = codes "." ∷ [] }

load-undefined_example : load disk 2 (codes "main.ini") cleared ≡ undefined
unfolding load equal remove_inline_comment trim has_byte has_prefix get_lines unquote_string
load-undefined_example =
    load-undefined disk 1 (codes "main.ini") main cleared [] (codes "include bad.ini") [] at_include
      0 (codes "bad.ini") (codes "Empty section name") (codes "bad.ini") 1 cleared refl refl
      (all_read refl refl)
      (record {
        stripped = codes "include bad.ini";
        strips = refl;
        filled = refl;
        starts = refl;
        named = refl;
        resolves = refl;
        found = refl;
      })
      (λ h. cc) refl
