-- ===== src/Tlc/Dump/Fallback.antt =====
-- The declarations that `dump` writes for functions that no header declares: `decideFallbackType`
-- and `buildFallbackDeclDecision` of src/tools/TLC/Commands/Dump.cpp.
pub mod Types
pub mod Decl
use lorelei.Base.{
  ℕ, Bool, true, false, not, ◌&&◌, ◌||◌, List, [], ◌∷◌, ◌++◌, map, Option, none, some, Bytes, codes,
  is_nil, is_some, equal, ◌==◌, leb, if◌then◌else◌,
}
use lorelei.Ordered.{Map, Set, find, keys}
use lorelei.Config.Section.{is_digit}
use lorelei.Tlc.Dump.{CapturedType, CapturedParam, CapturedFunction, any_equal, append_reason}

-- `joinSet`
unfoldable pub join_rest : Bytes → List Bytes → Bytes
join_rest out [] = out
join_rest out (item ∷ items) = join_rest ((out ++ codes ", ") ++ item) items

unfoldable pub join_set : List Bytes → Bytes
unfolding join_rest
join_set [] = []
join_set (item ∷ items) = join_rest item items

-- `llvm::StringRef::ends_with("*")`
unfoldable pub ends_with_star : Bytes → Bool
ends_with_star [] = false
ends_with_star (c ∷ s) = let rest = ends_with_star s in if is_nil s then c == b'*' else rest

unfoldable pub format_type_text_with_name : Bytes → Bytes → Bytes
unfolding ends_with_star
format_type_text_with_name text name =
    (if not (is_nil text) && not (ends_with_star text) then text ++ b' ' ∷ [] else text) ++ name

abbrev pub safe_tokens : List Bytes
safe_tokens =
    codes "void"
    ∷ codes "char"
    ∷ codes "short"
    ∷ codes "int"
    ∷ codes "long"
    ∷ codes "float"
    ∷ codes "double"
    ∷ codes "_Bool"
    ∷ codes "bool"
    ∷ codes "size_t"
    ∷ codes "ssize_t"
    ∷ codes "ptrdiff_t"
    ∷ codes "intptr_t"
    ∷ codes "uintptr_t"
    ∷ codes "int8_t"
    ∷ codes "uint8_t"
    ∷ codes "int16_t"
    ∷ codes "uint16_t"
    ∷ codes "int32_t"
    ∷ codes "uint32_t"
    ∷ codes "int64_t"
    ∷ codes "uint64_t"
    ∷ codes "intmax_t"
    ∷ codes "uintmax_t"
    ∷ codes "wchar_t"
    ∷ []

unfoldable pub is_safe_builtin_pointer_base_token : Bytes → Bool
is_safe_builtin_pointer_base_token token = any_equal token safe_tokens

-- the words that are passed over
abbrev pub skipped_tokens : List Bytes
skipped_tokens =
    codes "const"
    ∷ codes "volatile"
    ∷ codes "restrict"
    ∷ codes "__restrict"
    ∷ codes "__restrict__"
    ∷ codes "signed"
    ∷ codes "unsigned"
    ∷ codes "struct"
    ∷ codes "union"
    ∷ codes "enum"
    ∷ codes "__typeof__"
    ∷ []

-- `isalnum(ch) || ch == '_'`
abbrev pub is_word_byte : ℕ → Bool
is_word_byte c = is_digit c || (leb b'a' c && leb c b'z') || (leb b'A' c && leb c b'Z') || c == b'_'

-- `normalized`
unfoldable pub normalize : Bytes → Bytes
normalize [] = []
normalize (c ∷ s) = (if is_word_byte c then c else b' ') ∷ normalize s

-- The words that `iss >> token` reads, behind the bytes of a word that is begun.
unfoldable pub tokens : Bytes → Bytes → List Bytes
tokens begun [] = if is_nil begun then [] else begun ∷ []
tokens begun (c ∷ s) =
    let rest = tokens (if c == b' ' then [] else begun ++ c ∷ []) s in
    if c == b' ' && not (is_nil begun) then begun ∷ rest else rest

-- the loop over the words
unfoldable pub unresolved_token : List Bytes → Bool
unfolding is_safe_builtin_pointer_base_token
unresolved_token [] = false
unresolved_token (token ∷ rest) =
    let later = unresolved_token rest in
    if any_equal token skipped_tokens then later else not (is_safe_builtin_pointer_base_token token)

unfoldable pub looks_like_unresolved_named_pointer_type : Bytes → Bool
unfolding unresolved_token tokens normalize
looks_like_unresolved_named_pointer_type text = unresolved_token (tokens [] (normalize text))

pub record FallbackTypeDecision : Type 0 where
  pub allowed : Bool
  pub rewritten_to_void_ptr : Bool
  pub emitted_type_text : Bytes
  pub reason : Bytes

-- One of the headers is not known.
unfoldable pub has_unknown_header : List Bytes → Set → Bool
has_unknown_header [] known = false
has_unknown_header (path ∷ paths) known =
    not (is_some (find path known)) || has_unknown_header paths known

abbrev pub has_unresolved_named_pointer : CapturedType → Bool
has_unresolved_named_pointer type =
    type.pointer_like
    && is_nil type.header_paths
    && is_nil type.non_header_paths
    && looks_like_unresolved_named_pointer_type type.original_text

abbrev pub reason_if : Bool → Bytes → Bytes → Bytes
reason_if test reason text = if test then append_reason text reason else text

-- why a type is not written as it stands
abbrev pub fallback_reason : CapturedType → Set → Bytes
fallback_reason type known =
    reason_if (has_unresolved_named_pointer type)
      (codes "pointee type could not be resolved to an included header")
      (reason_if (not (is_nil type.non_header_paths))
        (codes "references types only seen in non-header files: "
          ++ join_set (keys type.non_header_paths))
        (reason_if (has_unknown_header (keys type.header_paths) known)
          (codes "requires types from headers not already included: "
            ++ join_set (keys type.header_paths))
          []))

unfoldable pub decide_fallback_type : CapturedType → Set → Bool → FallbackTypeDecision
unfolding has_unknown_header looks_like_unresolved_named_pointer_type append_reason join_set
decide_fallback_type type known is_return_type =
    let fully_known =
      not (has_unknown_header (keys type.header_paths) known) && is_nil type.non_header_paths in
    if fully_known && not (has_unresolved_named_pointer type)
    then record {
      allowed = true;
      rewritten_to_void_ptr = false;
      emitted_type_text = type.original_text;
      reason = [];
    }
    else if type.pointer_like
    then record {
      allowed = true;
      rewritten_to_void_ptr = true;
      emitted_type_text = codes "void *";
      reason = fallback_reason type known;
    }
    else record {
      allowed = false;
      rewritten_to_void_ptr = false;
      emitted_type_text = [];
      reason =
          if is_nil (fallback_reason type known)
          then (if is_return_type
              then codes "unsupported return type"
              else codes "unsupported parameter type")
          else fallback_reason type known;
    }

pub record FallbackDeclDecision : Type 0 where
  pub allowed : Bool
  pub decl_text : Bytes
  pub notes : List Bytes
  pub errors : List Bytes

abbrev pub refused : List Bytes → Bytes → FallbackDeclDecision
refused notes error = record { allowed = false; decl_text = []; notes = notes; errors = error ∷ [] }

abbrev pub return_note : CapturedType → FallbackTypeDecision → List Bytes
return_note type decision =
    if decision.rewritten_to_void_ptr
    then (codes "return type rewritten: `"
        ++ (type.original_text ++ (codes "` -> `void *` because " ++ decision.reason)))
      ∷ []
    else []

abbrev pub return_error : CapturedType → FallbackTypeDecision → Bytes
return_error type decision =
    codes "return type `"
    ++ (type.original_text ++ (codes "` cannot be emitted: " ++ decision.reason))

abbrev pub param_error : CapturedParam → FallbackTypeDecision → Bytes
param_error param decision =
    codes "parameter `"
    ++ (param.name
        ++ (codes "` of type `"
            ++ (param.type.original_text ++ (codes "` cannot be emitted: " ++ decision.reason))))

abbrev pub param_note : CapturedParam → FallbackTypeDecision → List Bytes
param_note param decision =
    if decision.rewritten_to_void_ptr
    then (codes "parameter `"
        ++ (param.name
            ++ (codes "` rewritten: `"
                ++ (param.type.original_text
                    ++ (codes "` -> `void *` because " ++ decision.reason)))))
      ∷ []
    else []

-- behind the parameters
abbrev pub finish_decl : CapturedFunction → Bytes → Bool → Bytes
finish_decl fn decl first =
    let dots =
      if fn.variadic then (if first then decl else decl ++ codes ", ") ++ codes "..." else decl in
    (if first && not fn.variadic then dots ++ codes "void" else dots) ++ codes ");"

-- The loop over the parameters, with what is written, whether nothing stands behind the
-- parenthesis, and the notes.
unfoldable pub build_params :
    CapturedFunction → Set → List CapturedParam → Bytes → Bool → List Bytes → FallbackDeclDecision
unfolding decide_fallback_type format_type_text_with_name
build_params fn known [] decl first notes = record {
  allowed = true;
  decl_text = finish_decl fn decl first;
  notes = notes;
  errors = [];
}
build_params fn known (param ∷ params) decl first notes =
    let decision = decide_fallback_type param.type known false in
    let rest =
      build_params fn known params
        ((if first then decl else decl ++ codes ", ")
          ++ format_type_text_with_name decision.emitted_type_text param.name)
        false (notes ++ param_note param decision) in
    if not decision.allowed then refused notes (param_error param decision) else rest

unfoldable pub build_fallback_decl_decision : Bytes → CapturedFunction → Set → FallbackDeclDecision
unfolding build_params
build_fallback_decl_decision name fn known =
    let decision = decide_fallback_type fn.return_type known true in
    let rest =
      build_params fn known fn.params
        (decision.emitted_type_text ++ (codes " " ++ (name ++ codes "("))) true
        (return_note fn.return_type decision) in
    if not decision.allowed then refused [] (return_error fn.return_type decision) else rest
