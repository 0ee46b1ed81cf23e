-- ===== src/Tlc/DefaultBuilder/Texts.antt =====
-- The texts that the default builder, src/tools/TLC/Passes/Builder/DefaultBuilder.cpp, formats and takes
-- from the code templates of src/tools/TLC/Utils/PassCodeTemplates.h.
use lorelei.Base.{
  ℕ, suc, ◌≡◌, refl, ap, List, [], ◌∷◌, ◌++◌, flatten, append-nil, append_assoc, Bytes, codes, ok,
  not,
}
use lorelei.Str.Format.{format, format_loop, read_index}
use lorelei.Tlc.Snippet.{
  ProcKind, function, callback, ProcDirection, guest_to_host, host_to_guest, Clang, Line,
  FunctionInfo,
}
use lorelei.Tlc.Snippet.Text.{direction_name}
use lorelei.Tlc.CodeTemplates.{
  as_is, get_callback, named_args, address_lines, slot_lines, more_names, call_list,
}
use lorelei.Tlc.DefaultBuilder.{template_format, exec_format, is_guest_to_host}
use lorelei.Tlc.DefaultBuilder.Sides.{
  joined, argument, self_names, callee, finding, written, arguments, names, self, packing, reading,
}

pub invoke_format :
    (kind : ProcKind) (d : ProcDirection) (name : Bytes)
    → ((format (template_format kind ++ codes "Adapt>::invoke") (name ∷ direction_name d ∷ []))
        ≡ ok (callee kind d name (codes "Adapt")))
      × ((format (template_format kind ++ codes "Caller>::invoke") (name ∷ direction_name d ∷ []))
          ≡ ok (callee kind d name (codes "Caller")))
      × ((format (template_format kind ++ codes "Exec>::invoke") (name ∷ direction_name d ∷ []))
          ≡ ok (callee kind d name (codes "Exec")))
unfolding format format_loop read_index flatten
invoke_format function guest_to_host name = (refl, refl, refl)
invoke_format function host_to_guest name = (refl, refl, refl)
invoke_format callback guest_to_host name = (refl, refl, refl)
invoke_format callback host_to_guest name = (refl, refl, refl)

-- the call of the sender that passes what is packed
abbrev pub exec_text : ProcKind → ProcDirection → Bytes → Bytes → Bytes
exec_text kind d name ret =
    callee kind d name (codes "Exec")
    ++ (codes "("
        ++ (joined (self_names kind ++ codes "args" ∷ ret ∷ codes "nullptr" ∷ []) ++ codes ");"))

pub exec_call_format :
    (kind : ProcKind) (d : ProcDirection) (name ret : Bytes)
    → format (exec_format kind) (name ∷ direction_name d ∷ ret ∷ [])
      ≡ ok (exec_text kind d name ret)
unfolding format format_loop read_index flatten joined
exec_call_format function guest_to_host name ret = simp append_assoc
exec_call_format function host_to_guest name ret = simp append_assoc
exec_call_format callback guest_to_host name ret = simp append_assoc
exec_call_format callback host_to_guest name ret = simp append_assoc

pub as_is-exec_text :
    (kind : ProcKind) (d : ProcDirection) (name ret : Bytes)
    → as_is (exec_text kind d name ret)
      ≡ codes "    "
        ++ (callee kind d name (codes "Exec")
            ++ (codes "("
                ++ (joined (self_names kind ++ codes "args" ∷ ret ∷ codes "nullptr" ∷ [])
                    ++ (codes ");" ++ 10 ∷ []))))
unfolding as_is joined
as_is-exec_text function guest_to_host name ret = simp append_assoc
as_is-exec_text function host_to_guest name ret = simp append_assoc
as_is-exec_text callback guest_to_host name ret = simp append_assoc
as_is-exec_text callback host_to_guest name ret = simp append_assoc

pub get_callback-finding :
    (d : ProcDirection) → get_callback (not (is_guest_to_host d)) ≡ finding callback d
unfolding get_callback as_is
get_callback-finding guest_to_host = refl
get_callback-finding host_to_guest = refl

pub written-append : (a b : List Line) → written (a ++ b) ≡ written a ++ written b
unfolding flatten
written-append [] b = refl
written-append (l ∷ a) b = simp (append_assoc, written-append a b)

module _ (clang : Clang) where
  open clang use {QualType, is_void, view_return_type, view_arg_types}

  pub named_args-arguments :
      (n : ℕ) (ts : List QualType) → named_args clang n ts ≡ arguments clang n ts
  unfolding named_args arguments
  named_args-arguments n [] = refl
  named_args-arguments n (t ∷ ts) = rw (named_args-arguments (suc n) ts) refl

  pub more_names-joined :
      (x : Bytes) (n : ℕ) (ts : List QualType)
      → x ++ more_names clang (arguments clang n ts) ≡ joined (x ∷ names clang n ts)
  unfolding more_names joined arguments names
  more_names-joined x n [] = append-nil x
  more_names-joined x n (t ∷ ts) =
      ap (λ r. x ++ (codes ", " ++ r)) (more_names-joined (argument n) (suc n) ts)

  pub call_list-joined :
      (kind : ProcKind) (ts : List QualType)
      → call_list clang (self clang kind ++ arguments clang 1 ts)
        ≡ joined (self_names kind ++ names clang 1 ts)
  unfolding arguments names joined
  call_list-joined function [] = refl
  call_list-joined function (t ∷ ts) = more_names-joined (argument 1) 2 ts
  call_list-joined callback ts = more_names-joined (codes "callback") 1 ts

  pub address_lines-packing :
      (n : ℕ) (ts : List QualType)
      → flatten (address_lines clang (arguments clang n ts)) ≡ packing clang n ts
  unfolding address_lines arguments packing flatten
  address_lines-packing n [] = refl
  address_lines-packing n (t ∷ ts) = rw (address_lines-packing (suc n) ts) refl

  pub slot_lines-reading :
      (info : FunctionInfo clang) (i : ℕ) (ts : List QualType)
      → flatten (slot_lines clang info i (arguments clang (suc i) ts)) ≡ reading clang i ts
  unfolding slot_lines arguments reading flatten
  slot_lines-reading info i [] = refl
  slot_lines-reading info i (t ∷ ts) = rw (slot_lines-reading info (suc i) ts) refl
