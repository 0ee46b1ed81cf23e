-- ===== src/Tlc/DefaultBuilder/Phases.antt =====
-- What the default builder, src/tools/TLC/Passes/Builder/DefaultBuilder.cpp, makes of each phase on the
-- side that sends and on the side that receives.
use lorelei.Base.{
  ◌≡◌, refl, ◌∙◌, sym, ap, List, [], ◌∷◌, ◌++◌, flatten, append-nil, append_assoc, Bytes, codes,
  true, false,
}
use lorelei.Tlc.Snippet.{
  ProcKind, function, callback, ProcDirection, ProcPhase, entry, adapt, caller, Clang, Line,
  FunctionInfo, ProcSource,
}
use lorelei.Tlc.CodeTemplates.{
  as_is, view_function_info, call_list_assign, arg_ptr_list_decl, arg_ptr_list_extract_decl,
  empty_return_decl, return_ret, packed_info, ret_extract_decl,
}
use lorelei.Tlc.DefaultBuilder.{
  call_info, ret_argument, push_text, fill, entry_source, adapt_source, caller_source,
}
use lorelei.Tlc.DefaultBuilder.Sides.{
  End, sending, receiving, callee, written, self, signature, packing, reading, opening, statement,
  closing, declared, Emits, call_names, assigned,
}
use lorelei.Tlc.DefaultBuilder.Texts.{
  exec_text, as_is-exec_text, get_callback-finding, written-append, named_args-arguments,
  call_list-joined, address_lines-packing, slot_lines-reading,
}

module _ (clang : Clang) where
  open clang use {QualType, is_void, view_return_type, view_arg_types}

  -- the declaration of a view, and of a callback with itself in front
  call_info-signature :
      (kind : ProcKind) (t : QualType)
      → call_info clang kind (view_function_info clang t) ≡ signature clang (self clang kind) t
  unfolding view_function_info
  call_info-signature function t = rw (named_args-arguments clang 1 (view_arg_types t)) refl
  call_info-signature callback t = rw (named_args-arguments clang 1 (view_arg_types t)) refl

  push_text-written :
      (text : Bytes) (lines : List Line)
      → written (push_text clang text lines) ≡ written lines ++ text
  unfolding flatten
  push_text-written [] lines = sym (append-nil _)
  push_text-written (c ∷ s) lines = simp (written-append, append-nil)

  fill-Emits :
      (e : End) (kind : ProcKind) (d : ProcDirection) (name : Bytes) (t : QualType)
      (phase : ProcPhase) (info : FunctionInfo clang) (prolog prolog2 center epilog : Bytes)
      (src : ProcSource clang)
      → info ≡ declared clang e kind t phase
      → prolog ++ prolog2 ≡ opening clang e kind d t phase
      → center ≡ statement clang e kind d name t phase
      → epilog ≡ closing clang e t phase
      → Emits clang e kind d name t phase src (fill clang info prolog prolog2 center epilog src)
  fill-Emits e kind d name t phase info prolog prolog2 center epilog src i p c q = record {
    declared_as = i;
    prolog =
        push_text-written prolog2 _
        ∙ ap (λ l. l ++ prolog2) (push_text-written prolog src.body.prolog)
        ∙ append_assoc (written src.body.prolog) prolog prolog2
        ∙ ap (λ l. written src.body.prolog ++ l) p;
    center = push_text-written center src.body.center ∙ ap (λ l. written src.body.center ++ l) c;
    epilog = push_text-written epilog src.body.epilog ∙ ap (λ l. written src.body.epilog ++ l) q;
    forward = refl;
    backward = refl;
  }

  -- a call with the names of the arguments
  call_list_assign-call_names :
      (kind : ProcKind) (t : QualType) (func variable : Bytes)
      → call_list_assign clang
          (view_return_type t)
          (call_info clang kind (view_function_info clang t)).args
          func
          variable
        ≡ assigned clang variable func (call_names clang kind t) t
  unfolding call_list_assign
  call_list_assign-call_names kind t func variable =
      rw (call_info-signature kind t, call_list-joined clang kind (view_arg_types t)) refl

  return_ret-closing :
      (t : QualType) → return_ret clang (view_return_type t) ≡ closing clang sending t adapt
  unfolding as_is
  return_ret-closing t = refl

  pub sent_entry :
      (kind : ProcKind) (d : ProcDirection) (name : Bytes) (t : QualType) (src : ProcSource clang)
      → Emits clang sending kind d name t entry src (
          entry_source clang true kind d
            (view_return_type t)
            (view_function_info clang t)
            (callee kind d name (codes "Adapt"))
            src)
  sent_entry function d name t src =
      fill-Emits sending function d name t entry _ (empty_return_decl clang (view_return_type t)) []
        _ _ src (call_info-signature function t) refl (call_list_assign-call_names function t _ _)
        (return_ret-closing t)
  sent_entry callback d name t src =
      fill-Emits sending callback d name t entry _ _ _ _ _ src (call_info-signature function t)
        (ap (λ l. empty_return_decl clang (view_return_type t) ++ l) (get_callback-finding d))
        (call_list_assign-call_names callback t _ _) (return_ret-closing t)

  packed_info-declared :
      (kind : ProcKind) (t : QualType)
      → packed_info clang kind ≡ declared clang receiving kind t entry
  packed_info-declared function t = refl
  packed_info-declared callback t = refl

  arg_ptr_list_extract_decl-reading :
      (t : QualType)
      → arg_ptr_list_extract_decl clang (view_function_info clang t)
        ≡ reading clang 0 (view_arg_types t)
  unfolding arg_ptr_list_extract_decl view_function_info
  arg_ptr_list_extract_decl-reading t =
      rw (named_args-arguments clang 1 (view_arg_types t))
        (slot_lines-reading clang (signature clang [] t) 0 (view_arg_types t))

  arg_ptr_list_decl-packing :
      (t : QualType)
      → arg_ptr_list_decl clang (view_function_info clang t).args
        ≡ (codes "    void *args[] = {" ++ 10 ∷ [])
          ++ (packing clang 1 (view_arg_types t) ++ (codes "    };" ++ 10 ∷ []))
  unfolding arg_ptr_list_decl view_function_info
  arg_ptr_list_decl-packing t =
      rw
        (
          named_args-arguments clang 1 (view_arg_types t),
          address_lines-packing clang 1 (view_arg_types t),
        )
        refl

  pub received_entry :
      (kind : ProcKind) (d : ProcDirection) (name : Bytes) (t : QualType) (src : ProcSource clang)
      → Emits clang receiving kind d name t entry src (
          entry_source clang false kind d
            (view_return_type t)
            (view_function_info clang t)
            (callee kind d name (codes "Adapt"))
            src)
  received_entry kind d name t src =
      fill-Emits receiving kind d name t entry _ _ _ _ _ src (packed_info-declared kind t)
        (ap (λ l. l ++ ret_extract_decl clang (view_return_type t))
          (arg_ptr_list_extract_decl-reading t))
        (call_list_assign-call_names kind t _ _) refl

  pub adapt_source-Emits :
      (e : End) (kind : ProcKind) (d : ProcDirection) (name : Bytes) (t : QualType)
      (src : ProcSource clang)
      → Emits clang e kind d name t adapt src (
          adapt_source clang kind
            (view_return_type t)
            (view_function_info clang t)
            (callee kind d name (codes "Caller"))
            src)
  adapt_source-Emits sending kind d name t src =
      fill-Emits sending kind d name t adapt _ (empty_return_decl clang (view_return_type t)) [] _ _
        src (call_info-signature kind t) (append-nil _) (call_list_assign-call_names kind t _ _)
        (return_ret-closing t)
  adapt_source-Emits receiving kind d name t src =
      fill-Emits receiving kind d name t adapt _ (empty_return_decl clang (view_return_type t)) [] _
        _ src (call_info-signature kind t) (append-nil _) (call_list_assign-call_names kind t _ _)
        (return_ret-closing t)

  abbrev pub sent_call : ProcKind → ProcDirection → Bytes → QualType → Bytes
  sent_call kind d name t = exec_text kind d name (ret_argument clang (view_return_type t))

  pub sent_caller :
      (kind : ProcKind) (d : ProcDirection) (name : Bytes) (t : QualType) (src : ProcSource clang)
      → Emits clang sending kind d name t caller src (
          caller_source clang true kind
            (view_return_type t)
            (view_function_info clang t)
            (sent_call kind d name t)
            (callee kind d name (codes "Exec"))
            src)
  sent_caller kind d name t src =
      fill-Emits sending kind d name t caller _ _ _ _ _ src (call_info-signature kind t)
        (ap (λ l. empty_return_decl clang (view_return_type t) ++ l) (arg_ptr_list_decl-packing t))
        (as_is-exec_text kind d name _) (return_ret-closing t)

  pub received_caller :
      (kind : ProcKind) (d : ProcDirection) (name : Bytes) (t : QualType) (src : ProcSource clang)
      → Emits clang receiving kind d name t caller src (
          caller_source clang false kind
            (view_return_type t)
            (view_function_info clang t)
            (sent_call kind d name t)
            (callee kind d name (codes "Exec"))
            src)
  received_caller kind d name t src =
      fill-Emits receiving kind d name t caller _ (empty_return_decl clang (view_return_type t)) []
        _ _ src (call_info-signature kind t) (append-nil _) (call_list_assign-call_names kind t _ _)
        (return_ret-closing t)
