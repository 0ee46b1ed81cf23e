-- ===== src/VarSizeArray/Removal.antt =====
-- The operations of include/lorelei/Support/VarSizeArray.h that take elements off an array.
use lorelei.Base.{
  ℕ, zero, suc, ◌+◌, ◌-◌, ◌≤◌, ◌<◌, ◌≡◌, refl, ap, ◌∙◌, sym, true, false, ◌&&◌, List, [], ◌∷◌, ◌++◌,
  length, take, drop, length-append, length-take, length-drop, append_assoc, append-nil,
  take-append, take-append-drop, leb, ltb, Gives, Gives-ok, Bool-cases, inl, inr, arith, ◌==◌,
}
use lorelei.VarSizeArray.{
  VarSizeArray, size, size_t_end, reserve, construct_all, copies, pop_back, move_down, erase_range,
  resize,
}
use lorelei.VarSizeArray.Capacity.{IsValid, Contains, reserve-IsValid, construct_all-Contains}
use lorelei.VarSizeArray.Contents.{with_items, length-copies}

module _ {A : Type 0} where
  -- Elements behind a cut are gone after the loop of moves and the destruction of the tail.
  move_down-take :
      (from to : ℕ) (xs : List A)
      → from ≤ to
      → to ≤ length xs
      → take (length xs - (to - from)) (move_down from to xs) ≡ take from xs ++ drop to xs
  unfolding move_down
  move_down-take from to xs h k =
      let kept = take from xs ++ drop to xs in
      let n : length xs - (to - from) ≡ length kept = omega (
        arith,
        length-append (take from xs) (drop to xs),
        length-take from xs,
        length-drop to xs,
        h,
        k,
      ) in
      let tail = drop (length xs - (to - from)) xs in
      ap (take (length xs - (to - from))) (sym (append_assoc (take from xs) (drop to xs) tail))
      ∙ ap (λ m. take m (kept ++ tail)) n
      ∙ take-append kept tail

  -- In a valid array, erasing a range of positions within it returns a valid array with the
  -- elements before and behind the range, in order.
  pub erase_range-Contains :
      (from to : ℕ) (v : VarSizeArray A)
      → from ≤ to
      → to ≤ size v
      → IsValid v
      → Gives (erase_range from to v) (Contains (take from v.items ++ drop to v.items))
  unfolding erase_range
  erase_range-Contains from to v h k ok_v = elim (Bool-cases (from == to)) [
    | inl e ↦
        let same : from ≡ to = ground arith in
        rw (e, erase_range)
          (
            sym (ap (λ n. take n v.items ++ drop to v.items) same ∙ take-append-drop to v.items),
            ok_v,
          )
    | inr e ↦
        let test : (ltb from to && leb to (size v)) ≡ true = ground arith in
        let cut = move_down-take from to v.items h k in
        let f = ok_v.fits in
        rw (e, test, erase_range)
          (
            cut,
            with_items v _
                (rw cut (
                  omega (
                    arith,
                    length-append (take from v.items) (drop to v.items),
                    length-take from v.items,
                    length-drop to v.items,
                    h,
                    k,
                    f,
                  )))
                ok_v,
          )
  ]

  take_ge : (n : ℕ) (xs : List A) → length xs ≤ n → take n xs ≡ xs
  take_ge zero [] h = refl
  take_ge (suc n) [] h = refl
  take_ge zero (x ∷ xs) h = absurd (omega arith)
  take_ge (suc n) (x ∷ xs) h = ap (◌∷◌ x) (take_ge n xs (omega arith))

  -- In a valid array, resize to a size_t returns a valid array: what is behind the new size is
  -- cut off, or it is filled up with the value.
  pub resize-Contains :
      (n : ℕ) (x : A) (v : VarSizeArray A)
      → n < size_t_end
      → IsValid v
      → Gives (resize n x v) (Contains (take n v.items ++ copies (n - size v) x))
  unfolding resize
  resize-Contains n x v h ok_v = elim (Bool-cases (ltb n (size v))) [
    | inl e ↦
        let z : n - size v ≡ 0 = ground arith in
        let f = ok_v.fits in
        rw (e, resize, z, append-nil)
          (refl, with_items v (take n v.items) (omega (arith, length-take n v.items, f)) ok_v)
    | inr e ↦
        let whole = take_ge n v.items (ground arith) in
        elim (Bool-cases (ltb (size v) n)) [
          | inl g ↦
              let (ok_r, same, room) = reserve-IsValid n v h ok_v in
              let lc = length-copies (n - size v) x in
              let sum : size v + (n - size v) ≡ n = ground arith in
              let room' : size (reserve n v) + length (copies (n - size v) x)
                  ≤ (reserve n v).capacity =
                rw (same, lc, sum) room in
              let (w, run, (q, ok_w)) =
                Gives-ok _ (construct_all (copies (n - size v) x) (reserve n v))
                  (construct_all-Contains (copies (n - size v) x) (reserve n v) room' ok_r) in
              rw (e, g, resize, run)
                (q ∙ ap (λ l. l ++ copies (n - size v) x) (same ∙ sym whole), ok_w)
          | inr g ↦
              let z : n - size v ≡ 0 = ground arith in
              rw (e, g, resize, z, append-nil) (sym whole, ok_v)
        ]
  ]

  -- `pop_back` of an array with elements takes the last one off.
  pub pop_back-Contains :
      (xs : List A) (x : A) (v : VarSizeArray A)
      → Contains (xs ++ x ∷ []) v
      → Gives (pop_back v) (Contains xs)
  unfolding pop_back
  pop_back-Contains xs x v (e, ok_v) =
      let n : size v ≡ length xs + 1 = ap length e ∙ length-append xs (x ∷ []) in
      let z : (size v == 0) ≡ false = ground (arith, n) in
      let m : size v - 1 ≡ length xs = omega (arith, n) in
      let cut : take (size v - 1) v.items ≡ xs = rw (m, e) (take-append xs (x ∷ [])) in
      let f = ok_v.fits in
      rw (z, pop_back) (cut, with_items v _ (rw cut (omega (arith, n, f))) ok_v)
