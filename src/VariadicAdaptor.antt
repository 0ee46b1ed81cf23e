-- ===== src/VariadicAdaptor.antt =====
-- The boxing of variadic arguments: `CVargEntry` of include/lorelei/DLCall/Tools/VariadicArgDefs.h,
-- and `VariadicAdaptor` of src/libs/DLCall/Tools/VariadicAdaptor.cpp and
-- VariadicAdaptor_FFCall.cpp.inc. A value is its bits, on LP64; a pointer to an argument is the
-- 64-bit word stored there, of which a load takes the low bits. The library ffcall with the
-- function it calls is a parameter: a function from the type of the result and the arguments that
-- were pushed to the bits of the result. So are the patched printf and scanf, and the conversion
-- of a float to a double. A failed assertion and a read past an array are `undefined`.
pub mod Boxing
pub mod Calls
pub mod Tests
use lorelei.Base.{
  ℕ, zero, suc, ◌+◌, ◌-◌, ◌%◌, ◌^◌, Bool, true, false, not, ◌&&◌, ◌||◌, List, [], ◌∷◌, ◌++◌, Option,
  none, some, Bytes, length, take, drop, ◌==◌, ltb, if◌then◌else◌, Run, ok, undefined, ◌>>=◌,
  replicate,
}
use lorelei.Index.{at}

pub data CVargType : Type 0 where
  void char uchar short ushort int uint long ulong longlong ulonglong float double pointer :
      CVargType

-- `bits` is what the member of the union that belongs to the type holds.
pub record CVargEntry : Type 0 where
  pub type_tag : CVargType
  pub bits : ℕ

-- The members of the union: `ul` is declared as `unsigned`.
unfoldable pub member_width : CVargType → ℕ
member_width void = 0
member_width char = 8
member_width uchar = 8
member_width short = 16
member_width ushort = 16
member_width int = 32
member_width uint = 32
member_width long = 64
member_width ulong = 32
member_width longlong = 64
member_width ulonglong = 64
member_width float = 32
member_width double = 64
member_width pointer = 64

-- The C types that the casts name.
unfoldable pub type_width : CVargType → ℕ
type_width void = 0
type_width char = 8
type_width uchar = 8
type_width short = 16
type_width ushort = 16
type_width int = 32
type_width uint = 32
type_width long = 64
type_width ulong = 64
type_width longlong = 64
type_width ulonglong = 64
type_width float = 32
type_width double = 64
type_width pointer = 64

-- The `switch` over the code of a type, of an argument and of the result.
unfoldable pub code_type : ℕ → CVargType
code_type fmt =
    if fmt == b'c'
    then char
    else if fmt == b'C'
    then uchar
    else if fmt == b's'
    then short
    else if fmt == b'S'
    then ushort
    else if fmt == b'i'
    then int
    else if fmt == b'I'
    then uint
    else if fmt == b'l'
    then long
    else if fmt == b'u'
    then ulong
    else if fmt == b'L'
    then longlong
    else if fmt == b'U'
    then ulonglong
    else if fmt == b'f'
    then float
    else if fmt == b'F'
    then double
    else if fmt == b'p'
    then pointer
    else void

-- Load of the C type, then the store to the member.
unfoldable pub store_member : CVargType → ℕ → CVargEntry
unfolding member_width type_width
store_member t word = record { type_tag = t; bits = (word % 2 ^ type_width t) % 2 ^ member_width t }

unfoldable pub arg_entry : ℕ → ℕ → CVargEntry
unfolding code_type store_member
arg_entry fmt word = store_member (code_type fmt) word

unfoldable pub is_void : CVargType → Bool
is_void void = true
is_void _ = false

-- `CVargEntryLength`
unfoldable pub entry_length : List CVargEntry → Run ℕ
unfolding is_void
entry_length [] = undefined
entry_length (e ∷ es) =
    let rest = entry_length es >>= λ n. ok (suc n) in if is_void e.type_tag then ok 0 else rest

-- `argc` entries; a negative count is `none` and stands for the entries before the sentinel.
unfoldable pub entries : Option ℕ → List CVargEntry → Run (List CVargEntry)
unfolding entry_length
entries none argv = entry_length argv >>= λ n. ok (take n argv)
entries (some argc) argv = if ltb (length argv) argc then undefined else ok (take argc argv)

-- An entry with no type pushes nothing.
unfoldable pub push_args : (CVargEntry → CVargEntry) → List CVargEntry → List CVargEntry
unfolding is_void
push_args pass [] = []
push_args pass (e ∷ es) =
    let rest = push_args pass es in if is_void e.type_tag then rest else pass e ∷ rest

abbrev pub Callee : Type 0
Callee = CVargType → List CVargEntry → ℕ

-- On riscv64 a floating-point variadic argument goes by its bits, in an integer register.
unfoldable pub vararg_entry : Bool → (ℕ → ℕ) → CVargEntry → CVargEntry
vararg_entry riscv64 widen e = elim e.type_tag [
  | double ↦ if riscv64 then record { type_tag = longlong; bits = e.bits } else e
  | float ↦ if riscv64 then record { type_tag = longlong; bits = widen e.bits } else e
  | _ ↦ e
]

-- `VariadicAdaptor::call`: the type of the result is that of `ret`. It is the bits that the member
-- of `ret` holds afterwards.
unfoldable pub call :
    Bool
    → (ℕ → ℕ)
    → Callee
    → Option ℕ
    → List CVargEntry
    → Option ℕ
    → List CVargEntry
    → CVargType
    → Run ℕ
unfolding entries push_args vararg_entry member_width type_width
call riscv64 widen func argc1 argv1 argc2 argv2 ret = entries argc1 argv1 >>= λ fixed.
    entries argc2 argv2 >>= λ variadic. ok (
      (func ret (push_args (λ e. e) fixed ++ push_args (vararg_entry riscv64 widen) variadic)
        % 2 ^ type_width ret)
      % 2 ^ member_width ret)

-- The loop of `callFormatBox64` that fills `vargs`.
unfoldable pub box_args : Bytes → List ℕ → Run (List CVargEntry)
unfolding arg_entry
box_args [] args = ok []
box_args (c ∷ cs) [] = undefined
box_args (c ∷ cs) (a ∷ args) = box_args cs args >>= λ es. ok (arg_entry c a ∷ es)

-- What is stored to the slot of the result; nothing for a null pointer or an unknown type.
unfoldable pub result_of : Bool → CVargType → ℕ → Option ℕ
unfolding is_void
result_of has_ret t bits = if not has_ret || is_void t then none else some bits

unfoldable pub call_format_box64 : Bool → (ℕ → ℕ) → Callee → Bytes → List ℕ → Bool → Run (Option ℕ)
unfolding box_args call code_type result_of
call_format_box64 riscv64 widen func [] args has_ret = undefined
call_format_box64 riscv64 widen func (r ∷ []) args has_ret = undefined
call_format_box64 riscv64 widen func (r ∷ s ∷ cs) args has_ret =
    if not (s == b'_')
    then undefined
    else (box_args cs args >>= λ vargs.
        call riscv64 widen func (some (length vargs)) vargs (some 0) [] (code_type r) >>= λ bits.
        ok (result_of has_ret (code_type r) bits))

pub data FormatStyle : Type 0 where
  printf scanf : FormatStyle

-- `extract`, where the patched formatter fills the array and ends it with the sentinel.
unfoldable pub extract :
    (Bytes → List ℕ → List CVargEntry)
    → (Bytes → List ℕ → List CVargEntry)
    → FormatStyle
    → Bytes
    → List ℕ
    → Run ℕ
unfolding entry_length
extract mp_vsnprintf mp_vsnprintf_scanf printf fmt ap = entry_length (mp_vsnprintf fmt ap)
extract mp_vsnprintf mp_vsnprintf_scanf scanf fmt ap = entry_length (mp_vsnprintf_scanf fmt ap)
