-- ===== src/Tlc/Dump/Output/Headers.antt =====
-- Which headers `buildOutput` of src/tools/TLC/Commands/Dump.cpp includes.
use lorelei.Base.{
  ◌≡◌, ◌↔◌, ◌⊎◌, inl, inr, refl, sym, subst, true, List, [], ◌∷◌, Option, none, some, Bytes, is_nil,
  Bool-cases, Option-cases,
}
use lorelei.Ordered.{Map, Set, find, update, keys}
use lorelei.Ordered.Laws.{IsSorted, update-IsSorted}
use lorelei.Tlc.Callbacks.Reach.{Has, Has-update, Has-update_self, Has-update_inv}
use lorelei.Tlc.Callbacks.Ends.{Among}
use lorelei.Tlc.Dump.{RequestedFunction, ResolvedFunction}
use lorelei.Tlc.Dump.Output.{
  Listing, push_description, add_to_headers, found_description, describe_function,
  list_without_header, list_function, list_functions,
}

-- The name was seen in the header.
abbrev pub SeenIn : Map ResolvedFunction → Bytes → Bytes → Type 0
SeenIn resolved header name =
    (r : ResolvedFunction) × (find name resolved ≡ some r) × Among header (keys r.header_paths)

add_to_headers-IsSorted :
    (d : Bytes) (paths : List Bytes) (m : Map (List Bytes))
    → IsSorted m
    → IsSorted (add_to_headers d paths m)
unfolding add_to_headers
add_to_headers-IsSorted d [] m s = s
add_to_headers-IsSorted d (path ∷ paths) m s =
    add_to_headers-IsSorted d paths _ (update-IsSorted path (push_description d) m s)

Has-add_to_headers :
    (h d : Bytes) (paths : List Bytes) (m : Map (List Bytes))
    → IsSorted m
    → Has h (add_to_headers d paths m) ↔ (Has h m ⊎ Among h paths)
unfolding add_to_headers
Has-add_to_headers h d [] m s = (λ i. inl i, λ due. elim due [ inl i ↦ i | inr a ↦ absurd a ])
Has-add_to_headers h d (path ∷ paths) m s =
    let later =
      Has-add_to_headers h d paths (update path (push_description d) m)
        (update-IsSorted path (push_description d) m s) in
    (
      λ i. elim (later.0 i) [
        | inl here ↦ elim (Has-update_inv path h (push_description d) m here) [
          | inl e ↦ inr (inl (sym e))
          | inr old ↦ inl old
        ]
        | inr a ↦ inr (inr a)
      ],
      λ due. elim due [
        | inl old ↦ later.1 (inl (Has-update path h (push_description d) m s old))
        | inr (inl e) ↦ later.1 (inl (rw (← e) (Has-update_self path (push_description d) m s)))
        | inr (inr a) ↦ later.1 (inr a)
      ],
    )

-- the headers of a listing
abbrev Headers : Listing → Map (List Bytes)
Headers l = l.header_to_functions

list_without_header-same :
    (d : Bytes) (r : Option ResolvedFunction) (l : Listing)
    → Headers (list_without_header d r l) ≡ Headers l
list_without_header-same d none l = refl
list_without_header-same d (some r) l = elim (Bool-cases (is_nil r.non_header_paths)) [
  | inl e ↦ rw e refl
  | inr e ↦ rw e refl
]

-- Of a function that was seen, the headers are added.
record Listed (resolved : Map ResolvedFunction) (Name : Bytes → Type 0) (l l' : Listing)
    : Type 0 where
  headers :
      (h : Bytes)
      → Has h (Headers l')
        ↔ (Has h (Headers l) ⊎ ((name : Bytes) × Name name × SeenIn resolved h name))
  sorted : IsSorted (Headers l')

nothing : (s : Set) (h : Bytes) → is_nil s ≡ true → ¬ Among h (keys s)
nothing [] h e a = a
nothing (x ∷ s) h e a = cc

no_headers :
    (r : ResolvedFunction) (h : Bytes)
    → is_nil r.header_paths ≡ true
    → ¬ Among h (keys r.header_paths)
no_headers r h e = nothing r.header_paths h e

list_function-Listed :
    (resolved : Map ResolvedFunction) (name : Bytes) (requested : RequestedFunction) (l : Listing)
    → IsSorted (Headers l)
    → Listed resolved (λ n. name ≡ n) l (list_function resolved name requested l)
unfolding list_function
list_function-Listed resolved name requested l s = elim (Option-cases (find name resolved)) [
  | inl e ↦ record {
    headers = λ h.
        rw (list_function, e)
          (λ i. inl i, λ due. elim due [ inl i ↦ i | inr (n, same, (r, found, a)) ↦ absurd (cc) ]);
    sorted = rw (list_function, e) s;
  }
  | inr (r, e) ↦ elim (Bool-cases (is_nil r.header_paths)) [
    | inl none_there ↦
        let same = list_without_header-same (describe_function name requested) (some r) l in
        record {
          headers = λ h.
              rw (list_function, e, none_there, same)
                (
                  λ i. inl i,
                  λ due. elim due [
                    | inl i ↦ i
                    | inr (n, same_name, (r', found, a)) ↦
                        let same_r : r' ≡ r = cc in
                        absurd (
                          no_headers r h none_there
                            (subst (λ x. Among h (keys x.header_paths)) same_r a))
                  ],
                );
          sorted = rw (list_function, e, none_there, same) s;
        }
    | inr there ↦
        let d = found_description (describe_function name requested) r in
        record {
          headers = λ h.
              rw (list_function, e, there)
                (
                  λ i. elim ((Has-add_to_headers h d (keys r.header_paths) (Headers l) s).0 i) [
                    | inl old ↦ inl old
                    | inr a ↦ inr (name, refl, (r, e, a))
                  ],
                  λ due. (Has-add_to_headers h d (keys r.header_paths) (Headers l) s).1 (elim due [
                    | inl old ↦ inl old
                    | inr (n, same_name, (r', found, a)) ↦
                        let same_r : r' ≡ r = cc in
                        inr (subst (λ x. Among h (keys x.header_paths)) same_r a)
                  ]),
                );
          sorted =
              rw (list_function, e, there)
                (add_to_headers-IsSorted d (keys r.header_paths) (Headers l) s);
        }
  ]
]

-- From headers in order, listing the requested functions leaves headers in order, each there
-- once; a header is there exactly if it was before or a requested function was seen in it.
pub list_functions-Headers :
    (resolved : Map ResolvedFunction) (requested : Map RequestedFunction) (l : Listing)
    → IsSorted l.header_to_functions
    → IsSorted (list_functions resolved requested l).header_to_functions
      × ((h : Bytes)
          → Has h (list_functions resolved requested l).header_to_functions ↔ (
              Has h l.header_to_functions
              ⊎ ((name : Bytes) × Among name (keys requested) × SeenIn resolved h name)))
unfolding list_functions
list_functions-Headers resolved [] l s =
    (s, λ h. (λ i. inl i, λ due. elim due [ inl i ↦ i | inr (name, listed, seen) ↦ absurd listed ]))
list_functions-Headers resolved ((name, f) ∷ more) l s =
    let one = list_function-Listed resolved name f l s in
    let (sorted, rest) =
      list_functions-Headers resolved more (list_function resolved name f l) one.sorted in
    (
      sorted,
      λ h. (
        λ i. elim ((rest h).0 i) [
          | inl before ↦ elim ((one.headers h).0 before) [
            | inl old ↦ inl old
            | inr (n, e, seen) ↦ inr (n, inl e, seen)
          ]
          | inr (n, listed, seen) ↦ inr (n, inr listed, seen)
        ],
        λ due. elim due [
          | inl old ↦ (rest h).1 (inl ((one.headers h).1 (inl old)))
          | inr (n, inl e, seen) ↦ (rest h).1 (inl ((one.headers h).1 (inr (n, e, seen))))
          | inr (n, inr listed, seen) ↦ (rest h).1 (inr (n, listed, seen))
        ],
      ),
    )
