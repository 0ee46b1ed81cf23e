-- ===== src/Tlc/Callbacks/Config/Sections.antt =====
-- Each name of a section of functions is found or missing, and the walks end
-- (src/tools/TLC/Commands/Stat.cpp).
use lorelei.Base.{
  ℕ, suc, ◌+◌, ◌*◌, ◌<◌, ◌≡◌, ◌↔◌, ◌⊎◌, inl, inr, refl, ◌∙◌, ap, sym, false, List, [], ◌∷◌, none,
  some, Bytes, is_some, length, Option-cases, Gives, Gives->>=, Gives-ok, ok-Gives,
}
use lorelei.Ordered.{find, add, update}
use lorelei.Ordered.Laws.{IsSorted, update-IsSorted}
use lorelei.Tlc.Summary.{
  ManifestSummary, ProcDirection, PerDirection, at_direction, change, guest_to_host, host_to_guest,
  add_function, FunctionEntry,
}
use lorelei.Tlc.Callbacks.{TypeSystem}
use lorelei.Tlc.Callbacks.Reach.{Has, Has-update, Has-update_self, Has-update_inv}
use lorelei.Tlc.Callbacks.Ends.{Among}
use lorelei.Tlc.Callbacks.Config.Same.{
  Finite, SameFunctions, collect-SameFunctions, collect_overlay-SameFunctions,
}
use lorelei.Tlc.Callbacks.Config.{
  FunctionDecl, Matches, collect, collect_overlay, config_origin, collect_name, collect_names,
}

at_direction-change {ℓ} :
    {A : Type ℓ} (direction : ProcDirection) (g : A → A) (p : PerDirection A)
    → at_direction direction (change direction g p) ≡ g (at_direction direction p)
at_direction-change guest_to_host g p = refl
at_direction-change host_to_guest g p = refl

-- Two steps that each add what is listed.
join : {A B C D E F : Type 0} → A ↔ (B ⊎ (C × D)) → E ↔ (A ⊎ (F × D)) → E ↔ (B ⊎ ((C ⊎ F) × D))
join p q = (
  λ e. elim (q.0 e) [
    | inl a ↦ elim (p.0 a) [ inl b ↦ inl b | inr (c, d) ↦ inr (inl c, d) ]
    | inr (f, d) ↦ inr (inr f, d)
  ],
  λ due. elim due [
    | inl b ↦ q.1 (inl (p.1 (inl b)))
    | inr (inl c, d) ↦ q.1 (inl (p.1 (inr (c, d))))
    | inr (inr f, d) ↦ q.1 (inr (f, d))
  ],
)

module _ (types : TypeSystem) where
  module _ (unit : Matches types) where
    -- Of the names, those that were matched are functions, and the others are missing.
    pub record SortedOut (direction : ProcDirection) (Listed : Bytes → Type 0)
        (s s' : ManifestSummary) : Type 0 where
      pub found :
          (k : Bytes)
          → Has k (at_direction direction s'.functions)
            ↔ (Has k (at_direction direction s.functions) ⊎ (Listed k × Has k unit.functions))
      pub missing :
          (k : Bytes)
          → Has k (at_direction direction s'.missing_functions) ↔ (
              Has k (at_direction direction s.missing_functions)
              ⊎ (Listed k × (is_some (find k unit.functions) ≡ false)))
      pub found_sorted : IsSorted (at_direction direction s'.functions)
      pub missing_sorted : IsSorted (at_direction direction s'.missing_functions)

  module _ (unit : Matches types) (fuel : ℕ) (names : List Bytes) (width : ℕ)
      (f : Finite types names width) (enough : length names * suc width + suc width < fuel) where
    collect_name-found :
        (direction : ProcDirection) (section name : Bytes) (s s' : ManifestSummary)
        (fd : FunctionDecl types)
        → IsSorted (at_direction direction s.functions)
        → IsSorted (at_direction direction s.missing_functions)
        → find name unit.functions ≡ some fd
        → SameFunctions types (add_function direction name fd.location s) s'
        → SortedOut unit direction (λ k. name ≡ k) s s'
    unfolding add_function is_some
    collect_name-found direction section name s s' fd fs ms e same =
        let F = at_direction direction s.functions in
        let entry : FunctionEntry = record { location = fd.location } in
        let functions : at_direction direction s'.functions ≡ update name (λ _. entry) F =
          ap (at_direction direction) same.functions
          ∙ at_direction-change direction _ s.functions in
        let missing : at_direction direction s'.missing_functions
            ≡ at_direction direction s.missing_functions =
          ap (at_direction direction) same.missing in
        record {
          found = λ k. rw functions (
            λ h. elim (Has-update_inv name k _ F h) [
              | inl same_name ↦ inr (sym same_name, rw (same_name, e) refl)
              | inr old ↦ inl old
            ],
            λ due. elim due [
              | inl old ↦ Has-update name k _ F fs old
              | inr (same_name, _) ↦ rw (← same_name) (Has-update_self name _ F fs)
            ],
          );
          missing = λ k. rw missing (
            λ h. inl h,
            λ due. elim due [ inl old ↦ old | inr (same_name, unmatched) ↦ absurd (cc) ],
          );
          found_sorted = rw functions (update-IsSorted name _ F fs);
          missing_sorted = rw missing ms;
        }

    collect_name-missing :
        (direction : ProcDirection) (section name : Bytes) (s : ManifestSummary)
        → IsSorted (at_direction direction s.functions)
        → IsSorted (at_direction direction s.missing_functions)
        → find name unit.functions ≡ none
        → SortedOut unit direction
            (λ k. name ≡ k)
            s
            (record s { missing_functions = change direction (add name) s.missing_functions })
    unfolding is_some
    collect_name-missing direction section name s fs ms e =
        let M = at_direction direction s.missing_functions in
        let missing = at_direction-change direction (add name) s.missing_functions in
        record {
          found = λ k. (
            λ h. inl h,
            λ due. elim due [ inl old ↦ old | inr (same_name, matched) ↦ absurd (cc) ],
          );
          missing = λ k. rw missing (
            λ h. elim (Has-update_inv name k _ M h) [
              | inl same_name ↦ inr (sym same_name, rw (same_name, e) refl)
              | inr old ↦ inl old
            ],
            λ due. elim due [
              | inl old ↦ Has-update name k _ M ms old
              | inr (same_name, _) ↦ rw (← same_name) (Has-update_self name _ M ms)
            ],
          );
          found_sorted = fs;
          missing_sorted = rw missing (update-IsSorted name _ M ms);
        }

    collect_name-SortedOut :
        (section : Bytes) (direction : ProcDirection) (name : Bytes) (s : ManifestSummary)
        → IsSorted (at_direction direction s.functions)
        → IsSorted (at_direction direction s.missing_functions)
        → Gives
            (collect_name types unit fuel section direction name s)
            (SortedOut unit direction (λ k. name ≡ k) s)
    unfolding collect_name
    collect_name-SortedOut section direction name s fs ms =
        elim (Option-cases (find name unit.functions)) [
          | inl e ↦ rw (collect_name, e) (collect_name-missing direction section name s fs ms e)
          | inr (fd, e) ↦
              let added = add_function direction name fd.location s in
              rw (collect_name, e)
                (Gives->>= (SameFunctions types added) (SortedOut unit direction (λ k. name ≡ k) s)
                  (collect types unit fuel fd.pointer_type
                    (config_origin types unit fuel section name) [] false added)
                  (collect_overlay types unit fuel section name)
                  (collect-SameFunctions types unit fuel names width f enough fd.pointer_type
                    (config_origin types unit fuel section name) [] false added)
                  (λ s1 first.
                    let (s2, h, second) = Gives-ok (SameFunctions types s1) _ (
                      collect_overlay-SameFunctions types unit fuel names width f enough section
                        name s1) in
                    ok-Gives (SortedOut unit direction (λ k. name ≡ k) s) _ h (
                      collect_name-found direction section name s s2 fd fs ms e (record {
                        functions = second.functions ∙ first.functions;
                        missing = second.missing ∙ first.missing;
                      }))))
        ]

    -- Where the types of the translation unit have finitely many texts and lead to boundedly
    -- many types each, and the fuel exceeds what these bounds allow for, collecting the names of
    -- a section of functions returns: in its direction exactly the names that were matched are
    -- added to the functions, and exactly the others to the missing ones.
    pub collect_names-SortedOut :
        (section : Bytes) (direction : ProcDirection) (keys : List Bytes) (s : ManifestSummary)
        → IsSorted (at_direction direction s.functions)
        → IsSorted (at_direction direction s.missing_functions)
        → Gives
            (collect_names types unit fuel section direction keys s)
            (SortedOut unit direction (λ k. Among k keys) s)
    unfolding collect_names
    collect_names-SortedOut section direction [] s fs ms = record {
      found =
          λ k. (λ h. inl h, λ due. elim due [ inl old ↦ old | inr (listed, _) ↦ absurd listed ]);
      missing =
          λ k. (λ h. inl h, λ due. elim due [ inl old ↦ old | inr (listed, _) ↦ absurd listed ]);
      found_sorted = fs;
      missing_sorted = ms;
    }
    collect_names-SortedOut section direction (name ∷ keys) s fs ms =
        Gives->>= (SortedOut unit direction (λ k. name ≡ k) s)
          (SortedOut unit direction (λ k. Among k (name ∷ keys)) s)
          (collect_name types unit fuel section direction name s)
          (collect_names types unit fuel section direction keys)
          (collect_name-SortedOut section direction name s fs ms)
          (λ s1 one.
            let (s2, h, more) = Gives-ok (SortedOut unit direction (λ k. Among k keys) s1) _ (
              collect_names-SortedOut section direction keys s1 one.found_sorted
                one.missing_sorted) in
            ok-Gives (SortedOut unit direction (λ k. Among k (name ∷ keys)) s) _ h (record {
              found = λ k. join (one.found k) (more.found k);
              missing = λ k. join (one.missing k) (more.missing k);
              found_sorted = more.found_sorted;
              missing_sorted = more.missing_sorted;
            }))
