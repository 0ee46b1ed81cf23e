-- ===== src/VarSizeArray/Tests.antt =====
-- The properties of `VarSizeArray` at concrete arrays.
use lorelei.Base.{ℕ, ◌<◌, ◌≤◌, ◌*◌, refl, true, false, [], ◌∷◌, Gives, arith}
use lorelei.VarSizeArray.{VarSizeArray, size_t_end, min_heap_capacity, compute_new_capacity, swap}
use lorelei.VarSizeArray.Capacity.{IsValid, Contains, compute_new_capacity-bounds}
use lorelei.VarSizeArray.Pairs.{swap-Contains}

abbrev inline_array : VarSizeArray ℕ
inline_array = record {
  items = 1 ∷ 2 ∷ 3 ∷ [];
  capacity = 4;
  inline_capacity = 4;
  is_inline = true;
}

abbrev heap_array : VarSizeArray ℕ
heap_array = record {
  items = 5 ∷ 6 ∷ 7 ∷ 8 ∷ 9 ∷ [];
  capacity = 8;
  inline_capacity = 4;
  is_inline = false;
}

inline_array-IsValid : IsValid inline_array
inline_array-IsValid = record {
  fits = omega arith;
  inline_same = λ h. refl;
  bounded = omega arith;
  inline_bounded = omega arith;
}

heap_array-IsValid : IsValid heap_array
heap_array-IsValid = record {
  fits = omega arith;
  inline_same = λ h. cc;
  bounded = omega arith;
  inline_bounded = omega arith;
}

compute_new_capacity-bounds_example :
    (5 ≤ compute_new_capacity 4 5)
    × (compute_new_capacity 4 5 < size_t_end)
    × (min_heap_capacity ≤ compute_new_capacity 4 5)
    × (4 * 2 ≤ compute_new_capacity 4 5)
compute_new_capacity-bounds_example = compute_new_capacity-bounds 4 5 (omega arith) (omega arith)

swap-Contains_example :
    Gives
      (swap false inline_array heap_array)
      (λ r. Contains heap_array.items r.0 × Contains inline_array.items r.1)
swap-Contains_example =
    swap-Contains inline_array heap_array inline_array-IsValid heap_array-IsValid
