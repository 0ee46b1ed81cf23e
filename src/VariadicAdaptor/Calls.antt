-- ===== src/VariadicAdaptor/Calls.antt =====
-- What the function gets that `callFormatBox64` of src/libs/DLCall/Tools/VariadicAdaptor.cpp calls,
-- and what its caller gets back.
use lorelei.Base.{
  ℕ, ◌%◌, ◌^◌, ◌≤◌, ◌≡◌, ◌≢◌, refl, ap, Bool, true, false, List, [], ◌∷◌, some, Bytes, length,
  take_all, append-nil, All, ltb, ok, arith,
}
use lorelei.VariadicAdaptor.{
  CVargEntry, Callee, ulong, type_width, code_type, store_member, arg_entry, is_void, entries,
  push_args, call, box_args, result_of, call_format_box64,
}
use lorelei.VariadicAdaptor.Boxing.{store_member-bits}

-- A code that names a type.
abbrev pub IsCode : ℕ → Type 0
IsCode c = is_void (code_type c) ≡ false

-- The arguments in order, each under its code.
unfoldable pub boxed : Bytes → List ℕ → List CVargEntry
boxed [] args = []
boxed (c ∷ cs) [] = []
boxed (c ∷ cs) (a ∷ args) = arg_entry c a ∷ boxed cs args

box_args-boxed :
    (cs : Bytes) (args : List ℕ) → length cs ≤ length args → box_args cs args ≡ ok (boxed cs args)
unfolding box_args boxed
box_args-boxed [] args h = refl
box_args-boxed (c ∷ cs) [] h = absurd (omega arith)
box_args-boxed (c ∷ cs) (a ∷ args) h = rw (box_args-boxed cs args (omega arith), box_args) refl

push_args-boxed :
    (cs : Bytes) (args : List ℕ)
    → All IsCode cs
    → push_args (λ e. e) (boxed cs args) ≡ boxed cs args
unfolding push_args boxed arg_entry store_member
push_args-boxed [] args h = refl
push_args-boxed (c ∷ cs) [] h = refl
push_args-boxed (c ∷ cs) (a ∷ args) h = rw (h.0, push_args, push_args-boxed cs args h.1) refl

-- For a format r_cs with codes of types, where r is not the code of unsigned long, and an
-- argument for each code, the call returns; the function gets the arguments in order, boxed by
-- their codes, and the slot gets the bits of its result.
pub call_format_box64-passes :
    (riscv64 : Bool) (widen : ℕ → ℕ) (func : Callee) (r : ℕ) (cs : Bytes) (args : List ℕ)
    → All IsCode cs
    → IsCode r
    → code_type r ≢ ulong
    → length cs ≤ length args
    → call_format_box64 riscv64 widen func (r ∷ b'_' ∷ cs) args true
      ≡ ok (some (func (code_type r) (boxed cs args) % 2 ^ type_width (code_type r)))
unfolding call_format_box64 call entries store_member push_args result_of
call_format_box64-passes riscv64 widen func r cs args hs hr ne le =
    let es = boxed cs args in
    let enough : ltb (length es) (length es) ≡ false = ground arith in
    rw (box_args-boxed cs args le, enough, take_all es, push_args-boxed cs args hs, append-nil, hr)
      (ap (λ b. ok (some b)) (store_member-bits (code_type r) (func (code_type r) es) ne))
