-- ===== src/VarSizeArray/Pairs.antt =====
-- Assignment and `swap` of include/lorelei/Support/VarSizeArray.h, on two arrays.
use lorelei.Base.{
  ℕ, zero, suc, ◌+◌, ◌≤◌, ◌<◌, ◌≡◌, refl, ap, ◌∙◌, false, not, ◌&&◌, List, [], ◌∷◌, ◌++◌, length,
  take, drop, min, length-append, length-take, length-drop, append-nil, take-append, drop-append,
  take-append-drop, take_all, leb, Gives, Gives-ok, Bool-cases, inl, inr, arith,
}
use lorelei.VarSizeArray.{
  VarSizeArray, size, size_t_end, reserve, construct_all, assign_copy, assign_move, reset_to_inline,
  clear, move_tail, swap,
}
use lorelei.VarSizeArray.Capacity.{IsValid, Contains, reserve-IsValid, construct_all-Contains}
use lorelei.VarSizeArray.Contents.{with_items}

module _ {A : Type 0} where
  cleared-IsValid : (v : VarSizeArray A) → IsValid v → IsValid (clear v)
  unfolding clear
  cleared-IsValid v ok_v = with_items v [] (omega arith) ok_v

  reset_to_inline-IsValid : (v : VarSizeArray A) → IsValid v → IsValid (reset_to_inline v)
  unfolding reset_to_inline
  reset_to_inline-IsValid v ok_v = elim (Bool-cases v.is_inline) [
    | inl e ↦
        rw (e, reset_to_inline)
          (record {
            fits = omega arith;
            inline_same = λ h. ok_v.inline_same e;
            bounded = ok_v.bounded;
            inline_bounded = ok_v.inline_bounded;
          })
    | inr e ↦
        rw (e, reset_to_inline)
          (record {
            fits = omega arith;
            inline_same = λ h. refl;
            bounded = ok_v.inline_bounded;
            inline_bounded = ok_v.inline_bounded;
          })
  ]

  -- Construction into an array that has no elements and was reserved for them.
  filled :
      (xs : List A) (v : VarSizeArray A)
      → v.items ≡ []
      → length xs < size_t_end
      → IsValid v
      → Gives (construct_all xs (reserve (length xs) v)) (Contains xs)
  filled xs v none h ok_v =
      let (ok_r, same, room) = reserve-IsValid (length xs) v h ok_v in
      let z : size (reserve (length xs) v) ≡ 0 = ap length (same ∙ none) in
      let (w, run, (e, ok_w)) =
        Gives-ok _ (construct_all xs (reserve (length xs) v))
          (construct_all-Contains xs (reserve (length xs) v) (omega (arith, z, room)) ok_r) in
      rw run (e ∙ ap (λ l. l ++ xs) (same ∙ none), ok_w)

  size_bounded : (v : VarSizeArray A) → IsValid v → size v < size_t_end
  size_bounded v ok_v = omega (arith, ok_v.fits, ok_v.bounded)

  -- Between two valid arrays, copy assignment returns a valid array with the elements of the other.
  pub assign_copy-Contains :
      (rhs v : VarSizeArray A)
      → IsValid rhs
      → IsValid v
      → Gives (assign_copy false rhs v) (Contains rhs.items)
  unfolding assign_copy clear
  assign_copy-Contains rhs v ok_rhs ok_v =
      filled rhs.items (clear v) refl (size_bounded rhs ok_rhs) (cleared-IsValid v ok_v)

  -- Between two valid arrays, move assignment returns a valid array with the elements of the
  -- other, which is left valid and empty, whichever buffers they use.
  pub assign_move-Contains :
      (rhs v : VarSizeArray A)
      → IsValid rhs
      → IsValid v
      → Gives (assign_move false rhs v) (λ r. Contains rhs.items r.0 × Contains [] r.1)
  unfolding assign_move reset_to_inline clear
  assign_move-Contains rhs v ok_rhs ok_v = elim (Bool-cases rhs.is_inline) [
    | inl e ↦
        let (w, run, r) =
          Gives-ok _ (construct_all rhs.items (reserve (size rhs) (reset_to_inline v))) (
            filled rhs.items (reset_to_inline v) refl (size_bounded rhs ok_rhs)
              (reset_to_inline-IsValid v ok_v)) in
        rw (e, assign_move, run)
          (
            r,
            (
              refl,
              record {
                fits = omega arith;
                inline_same = λ h. ok_rhs.inline_same e;
                bounded = ok_rhs.bounded;
                inline_bounded = ok_rhs.inline_bounded;
              },
            ),
          )
    | inr e ↦
        rw (e, assign_move)
          (
            (
              refl,
              record {
                fits = ok_rhs.fits;
                inline_same = λ h. cc;
                bounded = ok_rhs.bounded;
                inline_bounded = ok_v.inline_bounded;
              },
            ),
            (
              refl,
              record {
                fits = omega arith;
                inline_same = λ h. refl;
                bounded = ok_rhs.inline_bounded;
                inline_bounded = ok_rhs.inline_bounded;
              },
            ),
          )
  ]

  take-swapped : (n : ℕ) (xs ys : List A) → n ≤ length xs → take n (take n xs ++ ys) ≡ take n xs
  take-swapped n xs ys h =
      let m : n ≡ length (take n xs) = omega (arith, length-take n xs, h) in
      ap (λ k. take k (take n xs ++ ys)) m ∙ take-append (take n xs) ys

  drop-swapped : (n : ℕ) (xs ys : List A) → n ≤ length xs → drop n (take n xs ++ ys) ≡ ys
  drop-swapped n xs ys h =
      let m : n ≡ length (take n xs) = omega (arith, length-take n xs, h) in
      ap (λ k. drop k (take n xs ++ ys)) m ∙ drop-append (take n xs) ys

  take_whole : (n : ℕ) (xs : List A) → n ≡ length xs → take n xs ≡ xs
  take_whole n xs h = ap (λ k. take k xs) h ∙ take_all xs

  drop_whole : (n : ℕ) (xs : List A) → n ≡ length xs → drop n xs ≡ []
  drop_whole zero [] h = refl
  drop_whole zero (x ∷ xs) h = absurd (omega arith)
  drop_whole (suc n) [] h = refl
  drop_whole (suc n) (x ∷ xs) h = drop_whole n xs (omega arith)

  -- The shared elements are swapped already: the tail of the longer array moves over.
  move_tail-Contains :
      (s : ℕ) (xs ys : List A) (p q : VarSizeArray A)
      → s ≡ length ys
      → s ≤ length xs
      → p.items ≡ take s ys ++ drop s xs
      → q.items ≡ take s xs ++ drop s ys
      → length xs ≤ p.capacity
      → length xs ≤ q.capacity
      → IsValid p
      → IsValid q
      → Gives (move_tail s p q) (λ r. Contains ys r.0 × Contains xs r.1)
  unfolding move_tail
  move_tail-Contains s xs ys p q sy sx ep eq cp cq ok_p ok_q =
      let none : drop s ys ≡ [] = drop_whole s ys sy in
      let tail : drop s p.items ≡ drop s xs =
        ap (drop s) ep ∙ drop-swapped s ys (drop s xs) (omega (arith, sy)) in
      let head : take s p.items ≡ ys =
        ap (take s) ep ∙ take-swapped s ys (drop s xs) (omega (arith, sy)) ∙ take_whole s ys sy in
      let mine : q.items ≡ take s xs =
        eq ∙ ap (λ l. take s xs ++ l) none ∙ append-nil (take s xs) in
      let room : size q + length (drop s p.items) ≤ q.capacity =
        omega (arith, ap length mine, ap length tail, length-take s xs, length-drop s xs, cq, sx) in
      let (w, run, (e, ok_w)) =
        Gives-ok _ (construct_all (drop s p.items) q)
          (construct_all-Contains (drop s p.items) q room ok_q) in
      rw (run, move_tail)
        (
          (head, with_items p (take s p.items) (omega (arith, ap length head, cp, sy, sx)) ok_p),
          (
            e
                ∙ ap (λ l. l ++ drop s p.items) mine
                ∙ ap (λ l. take s xs ++ l) tail
                ∙ take-append-drop s xs,
            ok_w,
          ),
        )

  -- An array on the heap after it traded buffers.
  traded :
      (v rhs : VarSizeArray A)
      → v.is_inline ≡ false
      → IsValid v
      → IsValid rhs
      → IsValid (record v { items = rhs.items; capacity = rhs.capacity })
  traded v rhs h ok_v ok_rhs = record {
    fits = ok_rhs.fits;
    inline_same = λ e. cc;
    bounded = ok_rhs.bounded;
    inline_bounded = ok_v.inline_bounded;
  }

  length-mixed :
      (s : ℕ) (xs ys : List A)
      → s ≤ length xs
      → s ≤ length ys
      → length (take s xs ++ drop s ys) ≡ length ys
  length-mixed s xs ys h k =
      omega (arith, length-append (take s xs) (drop s ys), length-take s xs, length-drop s ys, h, k)

  -- Two valid arrays that swap are valid and have each the elements of the other, whichever
  -- buffers they use.
  pub swap-Contains :
      (v rhs : VarSizeArray A)
      → IsValid v
      → IsValid rhs
      → Gives (swap false v rhs) (λ r. Contains rhs.items r.0 × Contains v.items r.1)
  unfolding swap
  swap-Contains v rhs ok_v ok_rhs = elim (Bool-cases (not v.is_inline && not rhs.is_inline)) [
    | inl e ↦
        let hv : v.is_inline ≡ false = ground arith in
        let hr : rhs.is_inline ≡ false = ground arith in
        rw (e, swap) ((refl, traded v rhs hv ok_v ok_rhs), (refl, traded rhs v hr ok_rhs ok_v))
    | inr e ↦
        let s = min (size v) (size rhs) in
        let a' = reserve (size rhs) v in
        let b' = reserve (size v) rhs in
        let (ok_a, same_a, room_a) = reserve-IsValid (size rhs) v (size_bounded rhs ok_rhs) ok_v in
        let (ok_b, same_b, room_b) = reserve-IsValid (size v) rhs (size_bounded v ok_v) ok_rhs in
        let xs = take s rhs.items ++ drop s v.items in
        let ys = take s v.items ++ drop s rhs.items in
        let fits_a : length v.items ≤ a'.capacity = omega (arith, ok_a.fits, ap length same_a) in
        let fits_b : length rhs.items ≤ b'.capacity = omega (arith, ok_b.fits, ap length same_b) in
        let nx = length-mixed s rhs.items v.items (omega arith) (omega arith) in
        let ny = length-mixed s v.items rhs.items (omega arith) (omega arith) in
        let a = record a' { items = xs } in
        let b = record b' { items = ys } in
        let valid_a : IsValid a = with_items a' xs (omega (arith, nx, fits_a)) ok_a in
        let valid_b : IsValid b = with_items b' ys (omega (arith, ny, fits_b)) ok_b in
        elim (Bool-cases (leb (size rhs) (size v))) [
          | inl f ↦
              let le : size rhs ≤ size v = ground arith in
              rw (e, f, swap)
                (move_tail-Contains s v.items rhs.items a b (omega (arith, le)) (omega (arith, le))
                  refl refl fits_a room_b valid_a valid_b)
          | inr f ↦
              let le : size v ≤ size rhs = ground arith in
              let (r, run, h) = Gives-ok _ (move_tail s b a) (
                move_tail-Contains s rhs.items v.items b a (omega (arith, le)) (omega (arith, le))
                  refl refl fits_b room_a valid_b valid_a) in
              rw (e, f, swap, run) (h.1, h.0)
        ]
  ]
