-- ===== src/Str/Tests.antt =====
-- The properties of the string helpers at concrete texts.
use lorelei.Base.{
  ◌≡◌, refl, List, [], ◌∷◌, ◌++◌, some, Bytes, codes, has_byte, ok, undefined, arith, equal,
  if◌then◌else◌,
}
use lorelei.Str.Split.{split}
use lorelei.Str.Split.RoundTrip.{Tokens, split-Tokens}
use lorelei.Str.Varexp.{Part, literal, variable, varexp}
use lorelei.Str.Varexp.Total.{varexp-Ends}
use lorelei.Str.Varexp.Template.{
  Segment, text, dollar, var, template_source, template_meaning, varexp-template,
}
use lorelei.Str.Format.{format}
use lorelei.Str.Format.Template as FormatTemplate
use lorelei.Str.Format.Overflow.{format-undefined}

split-Tokens_example :
    (ts : List Bytes) × (split (codes "a, b, c") (codes ", ") ≡ some ts)
    × Tokens (codes "a, b, c") (codes ", ") ts
split-Tokens_example = split-Tokens (codes "a, b, c") (codes ", ") (λ h. cc)

abbrev home : Bytes → Bytes
home name = if equal name (codes "HOME") then codes "/root" else []

abbrev segments : List Segment
segments = text (codes "at ") ∷ var (codes "HOME") ∷ dollar ∷ []

varexp-template_example :
    varexp (template_source segments) home ≡ ok (template_meaning home segments)
unfolding has_byte equal
varexp-template_example = varexp-template home segments (refl, ((refl, refl, refl), (tt, tt)))

abbrev home_parts : List Part
home_parts =
    record { kind = literal; text = codes "in " }
    ∷ record { kind = variable; text = codes "HOME" }
    ∷ []

abbrev pieces : List FormatTemplate.Piece
pieces =
    FormatTemplate.text (codes "load ")
    ∷ FormatTemplate.ref 49 []
    ∷ FormatTemplate.text (codes " at 100")
    ∷ FormatTemplate.percent
    ∷ []

format-undefined_example :
    format (codes "x" ++ b'%' ∷ 57 ∷ (codes "999999999" ++ codes "!")) [] ≡ undefined
unfolding has_byte
format-undefined_example =
    format-undefined (codes "x") 57 (codes "999999999") (codes "!") [] refl refl refl (omega arith)

varexp-Ends_example : (r : Bytes) × (varexp (codes "${A${HOME}}") home ≡ ok r)
varexp-Ends_example = varexp-Ends (codes "${A${HOME}}") home
