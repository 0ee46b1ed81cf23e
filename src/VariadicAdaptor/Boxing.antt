-- ===== src/VariadicAdaptor/Boxing.antt =====
-- Which arguments `callFormatBox64_arg_entry` of src/libs/DLCall/Tools/VariadicAdaptor.cpp keeps.
use lorelei.Base.{ℕ, ◌%◌, ◌^◌, ◌<◌, ◌≡◌, ◌≢◌, ◌↔◌, refl, arith}
use lorelei.VariadicAdaptor.{
  CVargType, ulong, void, char, uchar, short, ushort, int, uint, long, longlong, ulonglong, float,
  double, pointer, member_width, type_width, code_type, store_member, arg_entry,
}

pub store_member-bits :
    (t : CVargType) (word : ℕ) → t ≢ ulong → (store_member t word).bits ≡ word % 2 ^ type_width t
unfolding store_member member_width type_width
store_member-bits void word h = omega arith
store_member-bits char word h = omega arith
store_member-bits uchar word h = omega arith
store_member-bits short word h = omega arith
store_member-bits ushort word h = omega arith
store_member-bits int word h = omega arith
store_member-bits uint word h = omega arith
store_member-bits long word h = omega arith
store_member-bits ulong word h = absurd (h refl)
store_member-bits longlong word h = omega arith
store_member-bits ulonglong word h = omega arith
store_member-bits float word h = omega arith
store_member-bits double word h = omega arith
store_member-bits pointer word h = omega arith

code_type-ulong : (c : ℕ) → code_type c ≡ ulong → c ≡ b'u'
unfolding code_type
code_type-ulong c h = ground arith

-- For every code but u the entry has the type of the code and the bits that the load of that
-- type gives: nothing of the argument is lost.
pub arg_entry-bits :
    (c word : ℕ)
    → c ≢ b'u'
    → ((arg_entry c word).type_tag ≡ code_type c)
      × ((arg_entry c word).bits ≡ word % 2 ^ type_width (code_type c))
unfolding arg_entry store_member
arg_entry-bits c word h =
    (refl, store_member-bits (code_type c) word (λ e. h (code_type-ulong c e)))

-- An unsigned long, code u, reaches its entry whole only if it is below 2 ^ 32: the entry has
-- the low 32 bits of it.
pub arg_entry-ulong :
    (word : ℕ)
    → ((arg_entry b'u' word).bits ≡ word % 2 ^ 32)
      × (((arg_entry b'u' word).bits ≡ word % 2 ^ type_width ulong) ↔ (word % 2 ^ 64 < 2 ^ 32))
unfolding arg_entry store_member member_width type_width code_type
arg_entry-ulong word = (omega arith, ((λ e. omega (arith, e)), (λ e. omega (arith, e))))
