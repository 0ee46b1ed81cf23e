-- ===== src/VariadicAdaptor/Tests.antt =====
-- The properties of the boxing of arguments at concrete words.
use lorelei.Base.{
  ℕ, ◌%◌, ◌^◌, ◌<◌, ◌+◌, ◌≡◌, ◌↔◌, refl, true, false, List, [], ◌∷◌, some, codes, ok, arith,
}
use lorelei.VariadicAdaptor.{
  CVargEntry, Callee, ulong, type_width, code_type, is_void, arg_entry, call_format_box64,
}
use lorelei.VariadicAdaptor.Boxing.{arg_entry-ulong}
use lorelei.VariadicAdaptor.Calls.{boxed, call_format_box64-passes}

arg_entry-ulong_example :
    ((arg_entry b'u' (2 ^ 40 + 7)).bits ≡ (2 ^ 40 + 7) % 2 ^ 32)
    × (((arg_entry b'u' (2 ^ 40 + 7)).bits ≡ (2 ^ 40 + 7) % 2 ^ type_width ulong)
        ↔ ((2 ^ 40 + 7) % 2 ^ 64 < 2 ^ 32))
arg_entry-ulong_example = arg_entry-ulong (2 ^ 40 + 7)

-- A function that adds its arguments up.
abbrev sum : List CVargEntry → ℕ
sum [] = 0
sum (e ∷ es) = e.bits + sum es

abbrev adder : Callee
adder t es = sum es

call_format_box64-passes_example :
    call_format_box64 false (λ b. b) adder (b'l' ∷ b'_' ∷ codes "iI") (3 ∷ 4 ∷ []) true
    ≡ ok (some (sum (boxed (codes "iI") (3 ∷ 4 ∷ [])) % 2 ^ type_width (code_type b'l')))
unfolding code_type is_void
call_format_box64-passes_example =
    call_format_box64-passes false (λ b. b) adder b'l' (codes "iI") (3 ∷ 4 ∷ []) (refl, (refl, tt))
      refl (λ h. cc) (omega arith)
