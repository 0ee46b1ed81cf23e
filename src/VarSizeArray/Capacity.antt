-- ===== src/VarSizeArray/Capacity.antt =====
-- The bounds that the growth of include/lorelei/Support/VarSizeArray.h keeps.
use lorelei.Base.{
  ℕ, ◌+◌, ◌*◌, ◌%◌, ◌≤◌, ◌<◌, ◌≡◌, refl, ap, ◌∙◌, sym, true, List, [], ◌∷◌, ◌++◌, length,
  length-append, append_assoc, append-nil, ltb, Gives, Gives-ok, Bool-cases, inl, inr, arith, ◌==◌,
}
use lorelei.VarSizeArray.{
  VarSizeArray, size, size_t_end, min_heap_capacity, compute_new_capacity, grow, reserve,
  construct_back, emplace_back, append, construct_all,
}

-- The elements fit in the buffer, the inline buffer keeps its capacity, and a capacity is a `size_t`.
pub record IsValid {A : Type 0} (v : VarSizeArray A) : Type 0 where
  pub fits : size v ≤ v.capacity
  pub inline_same : v.is_inline ≡ true → v.capacity ≡ v.inline_capacity
  pub bounded : v.capacity < size_t_end
  pub inline_bounded : v.inline_capacity < size_t_end

-- What an array is to its reader: valid, and with these elements.
abbrev pub Contains : {A : Type 0} → List A → VarSizeArray A → Type 0
Contains xs v = (v.items ≡ xs) × IsValid v

growth :
    (capacity min_capacity : ℕ)
    → min_capacity < size_t_end
    → (min_capacity ≤ compute_new_capacity capacity min_capacity)
      × (compute_new_capacity capacity min_capacity < size_t_end)
      × (min_heap_capacity ≤ compute_new_capacity capacity min_capacity)
      × (capacity * 2 < size_t_end → capacity * 2 ≤ compute_new_capacity capacity min_capacity)
unfolding compute_new_capacity
growth capacity min_capacity h =
    let twice = (capacity * 2) % size_t_end in
    let below : twice < size_t_end = omega arith in
    elim (Bool-cases (ltb twice min_capacity)) [
      | inl e ↦ elim (Bool-cases (ltb min_capacity min_heap_capacity)) [
        | inl f ↦ (ground arith, ground arith, ground arith, λ k. ground arith)
        | inr f ↦ (ground arith, ground arith, ground arith, λ k. ground arith)
      ]
      | inr e ↦ elim (Bool-cases (ltb twice min_heap_capacity)) [
        | inl f ↦ (ground arith, ground arith, ground arith, λ k. ground arith)
        | inr f ↦ (ground arith, ground arith, ground arith, λ k. ground arith)
      ]
    ]

-- When twice the old capacity does not overflow, and what is asked for is a size_t, so is the
-- new capacity, and it is at least what is asked for, at least 4, and at least twice the old
-- one.
pub compute_new_capacity-bounds :
    (capacity min_capacity : ℕ)
    → min_capacity < size_t_end
    → capacity * 2 < size_t_end
    → (min_capacity ≤ compute_new_capacity capacity min_capacity)
      × (compute_new_capacity capacity min_capacity < size_t_end)
      × (min_heap_capacity ≤ compute_new_capacity capacity min_capacity)
      × (capacity * 2 ≤ compute_new_capacity capacity min_capacity)
compute_new_capacity-bounds capacity min_capacity h k =
    let b = growth capacity min_capacity h in (b.0, b.1, b.2, b.3 k)

module _ {A : Type 0} where
  grow-IsValid :
      (n : ℕ) (v : VarSizeArray A)
      → n < size_t_end
      → size v ≤ n
      → IsValid v
      → IsValid (grow n v) × (n ≤ (grow n v).capacity)
  unfolding grow
  grow-IsValid n v h k ok_v =
      let b = growth v.capacity n h in
      (
        record {
          fits = omega (arith, b.0);
          inline_same = λ e. cc;
          bounded = b.1;
          inline_bounded = ok_v.inline_bounded;
        },
        b.0,
      )

  -- `reserve` makes room and keeps the elements.
  pub reserve-IsValid :
      (n : ℕ) (v : VarSizeArray A)
      → n < size_t_end
      → IsValid v
      → (IsValid (reserve n v)) × ((reserve n v).items ≡ v.items) × (n ≤ (reserve n v).capacity)
  unfolding reserve grow
  reserve-IsValid n v h ok_v = elim (Bool-cases (ltb v.capacity n)) [
    | inl e ↦
        let more : v.capacity < n = ground arith in
        let g = grow-IsValid n v h (omega (arith, more, ok_v.fits)) ok_v in
        rw (e, reserve) (g.0, refl, g.1)
    | inr e ↦ rw (e, reserve) (ok_v, refl, ground arith)
  ]

  pub construct_back-Contains :
      (x : A) (v : VarSizeArray A)
      → size v < v.capacity
      → IsValid v
      → Gives (construct_back x v) (λ w. Contains (v.items ++ x ∷ []) w × (w.capacity ≡ v.capacity))
  unfolding construct_back
  construct_back-Contains x v room ok_v =
      let e : ltb (size v) v.capacity ≡ true = ground arith in
      rw (e, construct_back)
        (
          (
            refl,
            record {
              fits = omega (arith, length-append v.items (x ∷ []));
              inline_same = ok_v.inline_same;
              bounded = ok_v.bounded;
              inline_bounded = ok_v.inline_bounded;
            },
          ),
          refl,
        )

  pub emplace_back-Contains :
      (x : A) (v : VarSizeArray A)
      → size v + 1 < size_t_end
      → IsValid v
      → Gives (emplace_back x v) (Contains (v.items ++ x ∷ []))
  unfolding emplace_back grow
  emplace_back-Contains x v h ok_v = elim (Bool-cases (size v == v.capacity)) [
    | inl e ↦
        let n : (size v + 1) % size_t_end ≡ size v + 1 = omega (arith, h) in
        let g = grow-IsValid (size v + 1) v h (omega arith) ok_v in
        let (w, run, r) =
          Gives-ok _ (construct_back x (grow (size v + 1) v))
            (construct_back-Contains x (grow (size v + 1) v) (omega (arith, g.1)) g.0) in
        rw (e, emplace_back, n, run) (r.0)
    | inr e ↦
        let f = ok_v.fits in
        let room : size v < v.capacity = ground arith in
        let (w, run, r) = Gives-ok _ (construct_back x v) (construct_back-Contains x v room ok_v) in
        rw (e, emplace_back, run) (r.0)
  ]

  -- `append`, and the loop of the constructors, add the elements in order.
  pub append-Contains :
      (xs : List A) (v : VarSizeArray A)
      → size v + length xs < size_t_end
      → IsValid v
      → Gives (append xs v) (Contains (v.items ++ xs))
  unfolding append
  append-Contains [] v h ok_v = (sym (append-nil v.items), ok_v)
  append-Contains (x ∷ xs) v h ok_v =
      let (w, run, (e, ok_w)) =
        Gives-ok _ (emplace_back x v) (emplace_back-Contains x v (omega (arith, h)) ok_v) in
      let n : size w ≡ size v + 1 = ap length e ∙ length-append v.items (x ∷ []) in
      let (u, more, (f, ok_u)) =
        Gives-ok _ (append xs w) (append-Contains xs w (omega (arith, h, n)) ok_w) in
      rw (run, append, more) (f ∙ ap (λ l. l ++ xs) e ∙ append_assoc v.items (x ∷ []) xs, ok_u)

  pub construct_all-Contains :
      (xs : List A) (v : VarSizeArray A)
      → size v + length xs ≤ v.capacity
      → IsValid v
      → Gives (construct_all xs v) (Contains (v.items ++ xs))
  unfolding construct_all
  construct_all-Contains [] v h ok_v = (sym (append-nil v.items), ok_v)
  construct_all-Contains (x ∷ xs) v h ok_v =
      let (w, run, ((e, ok_w), c)) =
        Gives-ok _ (construct_back x v) (construct_back-Contains x v (omega (arith, h)) ok_v) in
      let n : size w ≡ size v + 1 = ap length e ∙ length-append v.items (x ∷ []) in
      let (u, more, (f, ok_u)) =
        Gives-ok _ (construct_all xs w)
          (construct_all-Contains xs w (omega (arith, h, n, c)) ok_w) in
      rw (run, construct_all, more)
        (f ∙ ap (λ l. l ++ xs) e ∙ append_assoc v.items (x ∷ []) xs, ok_u)
