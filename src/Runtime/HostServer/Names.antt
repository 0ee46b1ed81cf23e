-- ===== src/Runtime/HostServer/Names.antt =====
-- The name of a thunk that src/modules/HostRT/HostServer.cpp takes from a path.
use lorelei.Base.{
  ℕ, ◌+◌, ◌-◌, ◌<◌, ◌≡◌, refl, true, false, [], ◌∷◌, ◌++◌, none, some, Bytes, codes, equal,
  equal_refl, has_byte, length, length-append, take-append, drop-append, append-nil, ltb, leb,
  lt→ltb, ◌==◌, ok, arith,
}
use lorelei.Str.Trim.{ends_with, to_lower}
use lorelei.Runtime.HostServer.{
  after_slash, path_get_name, at_so, before_so, get_library_name, path_max, thunk_name_of,
}

after_slash-none : (s : Bytes) → has_byte b'/' s ≡ false → after_slash s ≡ none
unfolding after_slash has_byte
after_slash-none [] h = refl
after_slash-none (c ∷ s) h =
    let rest = after_slash-none s (ground arith) in
    let here : (c == b'/') ≡ false = ground arith in rw (rest, here) refl

after_slash-last :
    (dir s : Bytes) → has_byte b'/' s ≡ false → after_slash (dir ++ b'/' ∷ s) ≡ some s
unfolding after_slash
after_slash-last [] s h = rw (after_slash-none s h) refl
after_slash-last (c ∷ dir) s h = rw (after_slash-last dir s h) refl

has_byte-append :
    (b : ℕ) (xs ys : Bytes)
    → has_byte b xs ≡ false
    → has_byte b ys ≡ false
    → has_byte b (xs ++ ys) ≡ false
unfolding has_byte
has_byte-append b [] ys h k = k
has_byte-append b (x ∷ xs) ys h k =
    let rest = has_byte-append b xs ys (ground arith) k in
    let here : (x == b) ≡ false = ground arith in rw (here, rest) refl

before_so-append :
    (base s t : Bytes) → before_so s ≡ some t → before_so (base ++ s) ≡ some (base ++ t)
unfolding before_so
before_so-append [] s t h = h
before_so-append (c ∷ base) s t h = rw (before_so-append base s t h) refl

-- The basename up to the rightmost ".so": for a basename `base.so` with a tail in which no other
-- ".so" begins, whatever the directory, the library's name is `base`.
pub get_library_name-base :
    (dir base tail : Bytes)
    → has_byte b'/' base ≡ false
    → has_byte b'/' tail ≡ false
    → before_so (codes "so" ++ tail) ≡ none
    → get_library_name (dir ++ b'/' ∷ (base ++ (codes ".so" ++ tail))) ≡ base
unfolding get_library_name path_get_name before_so at_so to_lower equal has_byte
get_library_name-base dir base tail hb ht none_later =
    let whole = base ++ (codes ".so" ++ tail) in
    let clean : has_byte b'/' whole ≡ false =
      has_byte-append b'/' base (codes ".so" ++ tail) hb ht in
    let found : before_so (codes ".so" ++ tail) ≡ some [] = rw none_later refl in
    rw
      (
        get_library_name,
        path_get_name,
        after_slash-last dir whole clean,
        before_so-append base (codes ".so" ++ tail) [] found,
      )
      (append-nil base)

-- A host thunk name_HTL.so, in any directory and with a tail in which no other .so begins, is
-- looked up as name, when the name has no slash and fits the buffer.
pub thunk_name_of-htl :
    (dir name tail : Bytes)
    → has_byte b'/' name ≡ false
    → has_byte b'/' tail ≡ false
    → before_so (codes "so" ++ tail) ≡ none
    → length name + 4 < path_max
    → thunk_name_of (some (dir ++ b'/' ∷ ((name ++ codes "_HTL") ++ (codes ".so" ++ tail))))
      ≡ ok name
unfolding thunk_name_of ends_with has_byte
thunk_name_of-htl dir name tail hn ht none_later fits =
    let base = name ++ codes "_HTL" in
    let n : length base ≡ length name + 4 = length-append name (codes "_HTL") in
    let lib =
      get_library_name-base dir base tail (has_byte-append b'/' name (codes "_HTL") hn refl) ht
        none_later in
    let small : ltb (length base) path_max ≡ true =
      lt→ltb (length base) path_max (omega (arith, n, fits)) in
    let cut : length base - 4 ≡ length name = omega (arith, n) in
    let enough : leb 4 (length base) ≡ true = ground (arith, n) in
    rw
      (
        lib,
        small,
        enough,
        cut,
        drop-append name (codes "_HTL"),
        take-append name (codes "_HTL"),
        equal_refl (codes "_HTL"),
      )
      refl
