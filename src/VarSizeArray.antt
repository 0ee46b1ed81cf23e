-- ===== src/VarSizeArray.antt =====
-- `VarSizeArrayBase` and `VarSizeArray` of include/lorelei/Support/VarSizeArray.h. An array is its
-- elements, the capacity of the buffer in use, and whether that is the inline buffer. A write
-- behind the buffer is undefined behaviour; sizes are `size_t`, of 64 bits. Copies of elements are
-- equal to them and do not throw. `same` tells whether the other array is this one.
pub mod Capacity
pub mod Contents
pub mod Removal
pub mod Pairs
pub mod Tests
use lorelei.Base.{
  ℕ, zero, suc, ◌+◌, ◌-◌, ◌*◌, ◌%◌, ◌^◌, min, Bool, true, false, not, ◌&&◌, List, [], ◌∷◌, ◌++◌,
  length, take, drop, get_elem?, Option, none, some, ◌==◌, leb, ltb, if◌then◌else◌, Run, ok,
  undefined, ◌>>=◌,
}
use lorelei.Index.{at}

pub record VarSizeArray {ℓ} (A : Type ℓ) : Type ℓ where
  pub items : List A
  pub capacity : ℕ
  pub inline_capacity : ℕ
  pub is_inline : Bool

abbrev pub size_t_end : ℕ
size_t_end = 2 ^ 64

abbrev pub min_heap_capacity : ℕ
min_heap_capacity = 4

unfoldable pub compute_new_capacity : ℕ → ℕ → ℕ
compute_new_capacity capacity min_capacity =
    let twice = (capacity * 2) % size_t_end in
    let c = if ltb twice min_capacity then min_capacity else twice in
    if ltb c min_heap_capacity then min_heap_capacity else c

module _ {ℓ} {A : Type ℓ} where
  -- The constructor of `VarSizeArray<T, N>`, with `adoptInlineBuffer`.
  unfoldable pub empty_array : ℕ → VarSizeArray A
  empty_array n = record { items = []; capacity = n; inline_capacity = n; is_inline = true }

  abbrev pub size : VarSizeArray A → ℕ
  size v = length v.items

  unfoldable pub grow : ℕ → VarSizeArray A → VarSizeArray A
  unfolding compute_new_capacity
  grow min_capacity v = record v {
    capacity = compute_new_capacity v.capacity min_capacity;
    is_inline = false;
  }

  unfoldable pub reserve : ℕ → VarSizeArray A → VarSizeArray A
  unfolding grow
  reserve n v = if ltb v.capacity n then grow n v else v

  -- `AT::construct(m_alloc, m_begin + m_size, value)` and `++m_size`
  unfoldable pub construct_back : A → VarSizeArray A → Run (VarSizeArray A)
  construct_back value v =
      if ltb (size v) v.capacity then ok (record v { items = v.items ++ value ∷ [] }) else undefined

  -- `emplace_back` with `growAndEmplaceBack`, and `push_back`
  unfoldable pub emplace_back : A → VarSizeArray A → Run (VarSizeArray A)
  unfolding grow construct_back
  emplace_back value v =
      if size v == v.capacity
      then construct_back value (grow ((size v + 1) % size_t_end) v)
      else construct_back value v

  unfoldable pub append : List A → VarSizeArray A → Run (VarSizeArray A)
  unfolding emplace_back
  append [] v = ok v
  append (x ∷ xs) v = emplace_back x v >>= λ w. append xs w

  -- A loop of `construct_back`.
  unfoldable pub construct_all : List A → VarSizeArray A → Run (VarSizeArray A)
  unfolding construct_back
  construct_all [] v = ok v
  construct_all (x ∷ xs) v = construct_back x v >>= λ w. construct_all xs w

  -- `std::rotate(m_begin + first, m_begin + middle, m_begin + m_size)`
  unfoldable pub rotate : ℕ → ℕ → List A → List A
  rotate first middle xs =
      take first xs ++ (drop middle xs ++ take (middle - first) (drop first xs))

  unfoldable pub insert : ℕ → A → VarSizeArray A → Run (VarSizeArray A)
  unfolding emplace_back rotate
  insert index value v =
      emplace_back value v >>= λ w. ok (record w { items = rotate index (size w - 1) w.items })

  abbrev pub copies : ℕ → A → List A
  copies zero value = []
  copies (suc n) value = value ∷ copies n value

  unfoldable pub insert_count : ℕ → ℕ → A → VarSizeArray A → Run (VarSizeArray A)
  unfolding construct_all rotate reserve
  insert_count index count value v =
      if count == 0
      then ok v
      else (construct_all (copies count value) (reserve ((size v + count) % size_t_end) v) >>= λ w.
          ok (record w { items = rotate index (size w - count) w.items }))

  unfoldable pub insert_range : ℕ → List A → VarSizeArray A → Run (VarSizeArray A)
  unfolding append rotate
  insert_range index xs v =
      append xs v >>= λ w. ok (record w { items = rotate index (size v) w.items })

  -- On an empty array the size would wrap.
  unfoldable pub pop_back : VarSizeArray A → Run (VarSizeArray A)
  pop_back v =
      if size v == 0 then undefined else ok (record v { items = take (size v - 1) v.items })

  -- `std::move(m_begin + to, m_begin + m_size, m_begin + from)`: what is behind the last element
  -- moved stays in its place.
  unfoldable pub move_down : ℕ → ℕ → List A → List A
  move_down from to xs = take from xs ++ (drop to xs ++ drop (length xs - (to - from)) xs)

  unfoldable pub erase : ℕ → VarSizeArray A → Run (VarSizeArray A)
  unfolding move_down pop_back
  erase index v =
      if ltb index (size v)
      then pop_back (record v { items = move_down index (index + 1) v.items })
      else undefined

  unfoldable pub erase_range : ℕ → ℕ → VarSizeArray A → Run (VarSizeArray A)
  unfolding move_down
  erase_range from to v =
      if from == to
      then ok v
      else if ltb from to && leb to (size v)
      then ok (record v { items = take (size v - (to - from)) (move_down from to v.items) })
      else undefined

  unfoldable pub clear : VarSizeArray A → VarSizeArray A
  clear v = record v { items = [] }

  -- `resize(n, value)`, and `resize(n)` for the value of the default constructor
  unfoldable pub resize : ℕ → A → VarSizeArray A → Run (VarSizeArray A)
  unfolding construct_all reserve
  resize n value v =
      if ltb n (size v)
      then ok (record v { items = take n v.items })
      else if ltb (size v) n
      then construct_all (copies (n - size v) value) (reserve n v)
      else ok v

  unfoldable pub assign_copy : Bool → VarSizeArray A → VarSizeArray A → Run (VarSizeArray A)
  unfolding clear reserve construct_all
  assign_copy same rhs v =
      if same then ok v else construct_all rhs.items (reserve (size rhs) (clear v))

  unfoldable pub reset_to_inline : VarSizeArray A → VarSizeArray A
  reset_to_inline v = record v {
    items = [];
    capacity = if v.is_inline then v.capacity else v.inline_capacity;
    is_inline = true;
  }

  -- This array, and the other one, which a move empties.
  unfoldable pub assign_move :
      Bool → VarSizeArray A → VarSizeArray A → Run (VarSizeArray A × VarSizeArray A)
  unfolding reset_to_inline reserve construct_all clear
  assign_move same rhs v =
      if same
      then ok (v, rhs)
      else if not rhs.is_inline
      then ok (
        record (reset_to_inline v) {
          items = rhs.items;
          capacity = rhs.capacity;
          is_inline = false;
        },
        record rhs { items = []; capacity = rhs.inline_capacity; is_inline = true },
      )
      else (construct_all rhs.items (reserve (size rhs) (reset_to_inline v)) >>= λ w.
          ok (w, clear rhs))

  -- The tail of the longer array goes to the shorter one.
  unfoldable pub move_tail :
      ℕ → VarSizeArray A → VarSizeArray A → Run (VarSizeArray A × VarSizeArray A)
  unfolding construct_all
  move_tail shared longer shorter = construct_all (drop shared longer.items) shorter >>= λ w.
      ok (record longer { items = take shared longer.items }, w)

  unfoldable pub swap :
      Bool → VarSizeArray A → VarSizeArray A → Run (VarSizeArray A × VarSizeArray A)
  unfolding reserve move_tail
  swap same v rhs =
      if same
      then ok (v, rhs)
      else if not v.is_inline && not rhs.is_inline
      then ok (
        record v { items = rhs.items; capacity = rhs.capacity },
        record rhs { items = v.items; capacity = v.capacity },
      )
      else (let shared = min (size v) (size rhs) in
          let a = record (reserve (size rhs) v) {
            items = take shared rhs.items ++ drop shared v.items;
          } in
          let b = record (reserve (size v) rhs) {
            items = take shared v.items ++ drop shared rhs.items;
          } in
          if leb (size rhs) (size v)
          then move_tail shared a b
          else (move_tail shared b a >>= λ r. ok (r.1, r.0)))
