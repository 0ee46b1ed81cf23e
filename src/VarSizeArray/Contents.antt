-- ===== src/VarSizeArray/Contents.antt =====
-- The operations of include/lorelei/Support/VarSizeArray.h on one array, by what they make of its
-- elements.
use lorelei.Base.{
  ℕ, zero, suc, ◌+◌, ◌-◌, ◌≤◌, ◌<◌, ◌%◌, ◌≡◌, refl, ap, ◌∙◌, sym, false, List, [], ◌∷◌, ◌++◌,
  length, take, drop, length-append, length-take, length-drop, take-append, drop-append,
  take-append-drop, Gives, Gives-ok, arith, ◌==◌,
}
use lorelei.VarSizeArray.{
  VarSizeArray, size, size_t_end, reserve, emplace_back, append, construct_all, rotate, insert,
  copies, insert_count, insert_range,
}
use lorelei.VarSizeArray.Capacity.{
  IsValid, Contains, reserve-IsValid, emplace_back-Contains, append-Contains,
  construct_all-Contains,
}

module _ {A : Type 0} where
  take-append_le : (i : ℕ) (a b : List A) → i ≤ length a → take i (a ++ b) ≡ take i a
  take-append_le zero a b h = refl
  take-append_le (suc i) [] b h = absurd (omega arith)
  take-append_le (suc i) (x ∷ a) b h = ap (◌∷◌ x) (take-append_le i a b (omega arith))

  drop-append_le : (i : ℕ) (a b : List A) → i ≤ length a → drop i (a ++ b) ≡ drop i a ++ b
  drop-append_le zero a b h = refl
  drop-append_le (suc i) [] b h = absurd (omega arith)
  drop-append_le (suc i) (x ∷ a) b h = drop-append_le i a b (omega arith)

  -- What was added at the back goes to its place.
  rotate-append :
      (i : ℕ) (a b : List A)
      → i ≤ length a
      → rotate i (length a) (a ++ b) ≡ take i a ++ (b ++ drop i a)
  unfolding rotate
  rotate-append i a b h =
      let n : length a - i ≡ length (drop i a) = sym (length-drop i a) in
      rw (take-append_le i a b h, drop-append a b, drop-append_le i a b h, n)
        (ap (λ l. take i a ++ (b ++ l)) (take-append (drop i a) b))

  pub with_items :
      (v : VarSizeArray A) (xs : List A)
      → length xs ≤ v.capacity
      → IsValid v
      → IsValid (record v { items = xs })
  with_items v xs h ok_v = record {
    fits = h;
    inline_same = ok_v.inline_same;
    bounded = ok_v.bounded;
    inline_bounded = ok_v.inline_bounded;
  }

  rotated :
      (i n : ℕ) (a b : List A) (w : VarSizeArray A)
      → i ≤ length a
      → n ≡ length a
      → Contains (a ++ b) w
      → Contains (take i a ++ (b ++ drop i a)) (record w { items = rotate i n w.items })
  rotated i n a b w le at_end (e, ok_w) =
      let moved : rotate i n w.items ≡ take i a ++ (b ++ drop i a) =
        rw (at_end, e) (rotate-append i a b le) in
      let f : length w.items ≤ w.capacity = ok_w.fits in
      let same : length (rotate i n w.items) ≡ length w.items =
        ap length moved
        ∙ omega (
          arith,
          length-append (take i a) (b ++ drop i a),
          length-append b (drop i a),
          length-take i a,
          length-drop i a,
          length-append a b,
          le,
        )
        ∙ ap length (sym e) in
      (moved, with_items w (rotate i n w.items) (rw same f) ok_w)

  -- One element before the position; the others keep their order.
  pub insert-Contains :
      (i : ℕ) (x : A) (v : VarSizeArray A)
      → i ≤ size v
      → size v + 1 < size_t_end
      → IsValid v
      → Gives (insert i x v) (Contains (take i v.items ++ (x ∷ drop i v.items)))
  unfolding insert
  insert-Contains i x v le h ok_v =
      let (w, run, (e, ok_w)) = Gives-ok _ (emplace_back x v) (emplace_back-Contains x v h ok_v) in
      let n : size w ≡ size v + 1 = ap length e ∙ length-append v.items (x ∷ []) in
      rw (run, insert) (rotated i (size w - 1) v.items (x ∷ []) w le (omega (arith, n)) (e, ok_w))

  -- In a valid array, at a position up to the size, and when the new size is a size_t, inserting
  -- a range returns a valid array with the range at the position and the others around it in
  -- order.
  pub insert_range-Contains :
      (i : ℕ) (xs : List A) (v : VarSizeArray A)
      → i ≤ size v
      → size v + length xs < size_t_end
      → IsValid v
      → Gives (insert_range i xs v) (Contains (take i v.items ++ (xs ++ drop i v.items)))
  unfolding insert_range
  insert_range-Contains i xs v le h ok_v =
      let (w, run, r) = Gives-ok _ (append xs v) (append-Contains xs v h ok_v) in
      rw (run, insert_range) (rotated i (size v) v.items xs w le refl r)

  pub length-copies : (n : ℕ) (x : A) → length (copies n x) ≡ n
  length-copies zero x = refl
  length-copies (suc n) x = ap (λ k. suc k) (length-copies n x)

  -- In a valid array, at a position up to the size, and when the new size is a size_t, inserting
  -- copies of a value returns a valid array with them at the position and the others around
  -- them.
  pub insert_count-Contains :
      (i count : ℕ) (x : A) (v : VarSizeArray A)
      → i ≤ size v
      → size v + count < size_t_end
      → IsValid v
      → Gives
          (insert_count i count x v)
          (Contains (take i v.items ++ (copies count x ++ drop i v.items)))
  unfolding insert_count
  insert_count-Contains i zero x v le h ok_v = (sym (take-append-drop i v.items), ok_v)
  insert_count-Contains i (suc k) x v le h ok_v =
      let total = size v + suc k in
      let n : total % size_t_end ≡ total = omega (arith, h) in
      let (ok_r, same, room) = reserve-IsValid total v h ok_v in
      let lc = length-copies (suc k) x in
      let room' : size (reserve total v) + length (copies (suc k) x) ≤ (reserve total v).capacity =
        rw (same, lc) room in
      let (w, run, (e, ok_w)) =
        Gives-ok _ (construct_all (copies (suc k) x) (reserve total v))
          (construct_all-Contains (copies (suc k) x) (reserve total v) room' ok_r) in
      let e' : w.items ≡ v.items ++ copies (suc k) x = e ∙ ap (λ l. l ++ copies (suc k) x) same in
      let m : size w ≡ size v + suc k =
        ap length e' ∙ length-append v.items (copies (suc k) x) ∙ ap (λ c. size v + c) lc in
      let z : (suc k == 0) ≡ false = ground arith in
      rw (z, insert_count, n, run)
        (rotated i (size w - suc k) v.items (copies (suc k) x) w le (omega (arith, m)) (e', ok_w))
