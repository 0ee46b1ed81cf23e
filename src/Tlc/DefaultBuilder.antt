-- ===== src/Tlc/DefaultBuilder.antt =====
-- The builder of thunks without a special form: src/tools/TLC/Passes/Builder/DefaultBuilder.cpp. The code for the side that is
-- not generated goes into sources that are thrown away, and is left out.
mod Tests
pub mod Sides
mod Texts
mod Phases
pub mod Emitted
use lorelei.Base.{
  ℕ, suc, ◌+◌, Bool, true, false, not, List, [], ◌∷◌, ◌++◌, flatten, Option, none, some, Bytes,
  codes, is_nil, to_string, if◌then◌else◌, Run, ok, undefined, ◌>>=◌,
}
use lorelei.Ordered.{find}
use lorelei.Str.Format.{format}
use lorelei.Tlc.Snippet.{
  ProcKind, function, callback, ProcDirection, guest_to_host, host_to_guest, ProcPhase, entry,
  adapt, caller, Clang, Line, push_back, FunctionInfo, FunctionBodySource, ProcSource, ProcSnippet,
}
use lorelei.Tlc.Snippet.Text.{direction_name}
use lorelei.Tlc.CodeTemplates.{
  as_is, get_callback, view_function_info, packed_info, callback_arg, empty_return_decl, return_ret,
  ret_extract_decl, call_list_assign, arg_ptr_list_decl, arg_ptr_list_extract_decl,
}
use lorelei.Tlc.Document.{Mode, guest, host}

-- `ProcFn` or `ProcCb` before the arguments of the template
abbrev pub template_format : ProcKind → Bytes
template_format function = codes "ProcFn<%1, %2, "
template_format callback = codes "ProcCb<%1, %2, "

abbrev pub exec_format : ProcKind → Bytes
exec_format function = codes "ProcFn<%1, %2, Exec>::invoke(args, %3, nullptr);"
exec_format callback = codes "ProcCb<%1, %2, Exec>::invoke(callback, args, %3, nullptr);"

-- The side whose calls the direction is named after sends, the other one receives.
abbrev pub is_sender : Mode → ProcDirection → Bool
is_sender guest guest_to_host = true
is_sender guest host_to_guest = false
is_sender host guest_to_host = false
is_sender host host_to_guest = true

abbrev pub is_guest_to_host : ProcDirection → Bool
is_guest_to_host guest_to_host = true
is_guest_to_host host_to_guest = false

module _ (clang : Clang) where
  open clang use {QualType, view_return_type, is_void}

  abbrev Info : Type 0
  Info = FunctionInfo clang

  -- `FI` of a function, `CFI` of a callback
  abbrev pub call_info : ProcKind → Info → Info
  call_info function info = info
  call_info callback info = record info { args = callback_arg clang ∷ info.args }

  -- What is pushed to the body of a source, under the name of the pass.
  abbrev pub keyed : Bytes → Line
  keyed text = record { id = codes "DefaultBuilder"; text = text }

  abbrev pub push_text : Bytes → List Line → List Line
  push_text text lines = push_back (keyed text) lines

  abbrev pub fill : Info → Bytes → Bytes → Bytes → Bytes → ProcSource clang → ProcSource clang
  fill info prolog prolog2 center epilog src =
      let body = src.body in
      record src {
        function_info = info;
        body = record body {
          prolog = push_text prolog2 (push_text prolog body.prolog);
          center = push_text center body.center;
          epilog = push_text epilog body.epilog;
        };
      }

  -- the lines of a callback that is called on the sending side
  abbrev callback_prolog : ProcKind → ProcDirection → Bytes
  callback_prolog function direction = []
  callback_prolog callback direction = get_callback (not (is_guest_to_host direction))

  abbrev pub entry_source :
      Bool
      → ProcKind
      → ProcDirection
      → QualType
      → Info
      → Bytes
      → ProcSource clang
      → ProcSource clang
  entry_source true kind direction t info adapt_invoke =
      fill info (empty_return_decl clang t) (callback_prolog kind direction)
        (call_list_assign clang t (call_info kind info).args adapt_invoke (codes "ret"))
        (return_ret clang t)
  entry_source false kind direction t info adapt_invoke =
      fill (packed_info clang kind) (arg_ptr_list_extract_decl clang info)
        (ret_extract_decl clang t)
        (call_list_assign clang t (call_info kind info).args adapt_invoke (codes "ret_ref")) []

  abbrev pub adapt_source : ProcKind → QualType → Info → Bytes → ProcSource clang → ProcSource clang
  adapt_source kind t info caller_invoke =
      fill (call_info kind info) (empty_return_decl clang t) []
        (call_list_assign clang t (call_info kind info).args caller_invoke (codes "ret"))
        (return_ret clang t)

  abbrev pub caller_source :
      Bool → ProcKind → QualType → Info → Bytes → Bytes → ProcSource clang → ProcSource clang
  caller_source true kind t info exec_call exec_invoke =
      fill (call_info kind info) (empty_return_decl clang t) (arg_ptr_list_decl clang info.args)
        (as_is exec_call) (return_ret clang t)
  caller_source false kind t info exec_call exec_invoke =
      fill (call_info kind info) (empty_return_decl clang t) []
        (call_list_assign clang t (call_info kind info).args exec_invoke (codes "ret"))
        (return_ret clang t)

  abbrev pub ret_argument : QualType → Bytes
  ret_argument t = if is_void t then codes "nullptr" else codes "&ret"

  -- `ProcFn<%1, %2, Adapt>::invoke` and the like
  abbrev pub invoke_text : ProcSnippet clang → Bytes → Run Bytes
  invoke_text proc rest =
      format (template_format proc.kind ++ rest) (proc.name ∷ direction_name proc.direction ∷ [])

  -- the sources of the phases with what the pass adds
  abbrev pub built_source :
      Mode
      → ProcSnippet clang
      → QualType
      → Bytes
      → Bytes
      → Bytes
      → Bytes
      → ProcPhase
      → ProcSource clang
  built_source mode proc t adapt_invoke caller_invoke exec_call exec_invoke phase =
      let sends = is_sender mode proc.direction in
      let info = view_function_info clang t in
      let ret = view_return_type t in
      elim phase [
        | entry ↦
            entry_source sends proc.kind proc.direction ret info adapt_invoke (proc.sources entry)
        | adapt ↦ adapt_source proc.kind ret info caller_invoke (proc.sources adapt)
        | caller ↦
            caller_source sends proc.kind ret info exec_call exec_invoke (proc.sources caller)
      ]

  unfoldable pub build : Mode → ProcSnippet clang → QualType → Run (ProcSnippet clang)
  unfolding format view_function_info call_list_assign arg_ptr_list_decl arg_ptr_list_extract_decl
      as_is get_callback
  build mode proc t = invoke_text proc (codes "Adapt>::invoke") >>= λ adapt_invoke.
      invoke_text proc (codes "Caller>::invoke") >>= λ caller_invoke.
      invoke_text proc (codes "Exec>::invoke") >>= λ exec_invoke.
      format (exec_format proc.kind)
        (proc.name ∷ direction_name proc.direction ∷ ret_argument (view_return_type t) ∷ [])
      >>= λ exec_call. ok (record proc {
        sources = built_source mode proc t adapt_invoke caller_invoke exec_call exec_invoke;
      })

  -- A null type is used.
  unfoldable pub begin_handle_proc : Mode → ProcSnippet clang → Run (ProcSnippet clang)
  unfolding build
  begin_handle_proc mode proc = elim proc.real_function_pointer_type [
    | none ↦ undefined
    | some t ↦ build mode proc t
  ]
