-- ===== src/Tlc/Dump/Fallback/Decl.antt =====
-- The text of a declaration that `buildFallbackDeclDecision` of src/tools/TLC/Commands/Dump.cpp makes.
use lorelei.Base.{
  ◌≡◌, refl, ◌∙◌, sym, ap, Bool, true, false, ◌&&◌, List, [], ◌∷◌, ◌++◌, append_assoc, append-nil,
  Bytes, codes, if◌then◌else◌, Bool-cases, inl, inr,
}
use lorelei.Ordered.{Set}
use lorelei.Str.Split.{join}
use lorelei.Str.Split.RoundTrip.{join-cons}
use lorelei.Tlc.Dump.{CapturedParam, CapturedFunction}
use lorelei.Tlc.Dump.Fallback.{
  decide_fallback_type, format_type_text_with_name, param_note, build_params,
  build_fallback_decl_decision, return_note,
}

and_true : (a b : Bool) → (a && b) ≡ true → (a ≡ true) × (b ≡ true)
and_true true b h = (refl, h)
and_true false b h = cc

abbrev pub in_parentheses : List Bytes → Bytes
in_parentheses [] = codes "void"
in_parentheses (a ∷ rest) = join (a ∷ rest) (codes ", ")

-- items that each stand behind a comma
behind : List Bytes → Bytes
behind [] = []
behind (a ∷ rest) = codes ", " ++ (a ++ behind rest)

join-behind : (a : Bytes) (rest : List Bytes) → join (a ∷ rest) (codes ", ") ≡ a ++ behind rest
unfolding behind join
join-behind a [] = sym (append-nil a)
join-behind a (b ∷ bs) =
    join-cons (codes ", ") a b bs ∙ ap (λ t. a ++ (codes ", " ++ t)) (join-behind b bs)

module _ (known : Set) where
  abbrev pub is_allowed : CapturedParam → Bool
  is_allowed param = (decide_fallback_type param.type known false).allowed

  abbrev pub all_allowed : List CapturedParam → Bool
  all_allowed [] = true
  all_allowed (param ∷ params) = is_allowed param && all_allowed params

  -- a parameter with its name
  abbrev pub argument : CapturedParam → Bytes
  argument param =
      format_type_text_with_name (decide_fallback_type param.type known false).emitted_type_text
        param.name

  -- what stands in the parentheses
  abbrev pub arguments : CapturedFunction → List CapturedParam → List Bytes
  arguments fn [] = if fn.variadic then codes "..." ∷ [] else []
  arguments fn (param ∷ params) = argument param ∷ arguments fn params

  build_params-behind :
      (fn : CapturedFunction) (params : List CapturedParam) (decl : Bytes) (notes : List Bytes)
      → all_allowed params ≡ true
      → ((build_params fn known params decl false notes).allowed ≡ true)
        × ((build_params fn known params decl false notes).decl_text
            ≡ decl ++ (behind (arguments fn params) ++ codes ");"))
  unfolding build_params behind
  build_params-behind fn [] decl notes h = elim (Bool-cases fn.variadic) [
    | inl v ↦ (refl, rw (build_params, v) (simp append_assoc))
    | inr v ↦ (refl, rw (build_params, v) refl)
  ]
  build_params-behind fn (param ∷ params) decl notes h =
      let (here, more) = and_true (is_allowed param) (all_allowed params) h in
      let (a, t) =
        build_params-behind fn params ((decl ++ codes ", ") ++ argument param)
          (notes ++ param_note param (decide_fallback_type param.type known false)) more in
      (rw (build_params, here) a, rw (build_params, here) (t ∙ simp append_assoc))

  build_params-refused :
      (fn : CapturedFunction) (params : List CapturedParam) (decl : Bytes) (first : Bool)
      (notes : List Bytes)
      → all_allowed params ≡ false
      → (build_params fn known params decl first notes).allowed ≡ false
  unfolding build_params
  build_params-refused fn [] decl first notes h = cc
  build_params-refused fn (param ∷ params) decl first notes h =
      elim (Bool-cases (is_allowed param)) [
        | inl a ↦ rw (build_params, a) (build_params-refused fn params _ false _ (rw a at h))
        | inr a ↦ rw (build_params, a) refl
      ]

  build_params-first :
      (fn : CapturedFunction) (params : List CapturedParam) (decl : Bytes) (notes : List Bytes)
      → all_allowed params ≡ true
      → ((build_params fn known params decl true notes).allowed ≡ true)
        × ((build_params fn known params decl true notes).decl_text
            ≡ decl ++ (in_parentheses (arguments fn params) ++ codes ");"))
  unfolding build_params behind join
  build_params-first fn [] decl notes h = elim (Bool-cases fn.variadic) [
    | inl v ↦ (refl, rw (build_params, v) (simp append_assoc))
    | inr v ↦ (refl, rw (build_params, v) (simp append_assoc))
  ]
  build_params-first fn (param ∷ params) decl notes h =
      let (here, more) = and_true (is_allowed param) (all_allowed params) h in
      let (a, t) =
        build_params-behind fn params (decl ++ argument param)
          (notes ++ param_note param (decide_fallback_type param.type known false)) more in
      (
        rw (build_params, here) a,
        rw (build_params, here)
            (t
              ∙ append_assoc decl (argument param) (behind (arguments fn params) ++ codes ");")
              ∙ ap (λ s. decl ++ s)
                  (sym (append_assoc (argument param) (behind (arguments fn params)) (codes ");"))
                    ∙ ap (λ s. s ++ codes ");")
                        (sym (join-behind (argument param) (arguments fn params))))),
      )

  -- A fallback declaration is allowed exactly if the types of the result and of all parameters
  -- are, and then its text is the type of the result, the name, and in parentheses the
  -- parameters and the dots of a variadic function, joined by commas, or void when there are
  -- neither.
  pub build_fallback_decl_decision-text :
      (name : Bytes) (fn : CapturedFunction)
      → let result = decide_fallback_type fn.return_type known true in
        let out = build_fallback_decl_decision name fn known in
        (out.allowed ≡ (result.allowed && all_allowed fn.params))
        × (out.allowed ≡ true
            → out.decl_text
              ≡ result.emitted_type_text
                ++ (b' '
                    ∷ (name ++ (b'(' ∷ (in_parentheses (arguments fn fn.params) ++ codes ");")))))
  unfolding build_fallback_decl_decision
  build_fallback_decl_decision-text name fn =
      let result = decide_fallback_type fn.return_type known true in
      let notes = return_note fn.return_type result in
      let decl = result.emitted_type_text ++ (codes " " ++ (name ++ codes "(")) in
      elim (Bool-cases result.allowed) [
        | inr r ↦ (
          rw (build_fallback_decl_decision, r) refl,
          λ h. absurd (cc (rw (build_fallback_decl_decision, r) at h)),
        )
        | inl r ↦ elim (Bool-cases (all_allowed fn.params)) [
          | inr a ↦
              let no = build_params-refused fn fn.params decl true notes a in
              (
                rw (build_fallback_decl_decision, r, no, a) refl,
                λ h. absurd (cc (rw (build_fallback_decl_decision, r, no) at h)),
              )
          | inl a ↦
              let (yes_it_is, text) = build_params-first fn fn.params decl notes a in
              (
                rw (build_fallback_decl_decision, r, yes_it_is, a) refl,
                λ h. rw (build_fallback_decl_decision, r, text) (simp append_assoc),
              )
        ]
      ]
