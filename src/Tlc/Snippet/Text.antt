-- ===== src/Tlc/Snippet/Text.antt =====
-- `ProcSnippet::text`: a phase of a proc as source text.
use lorelei.Base.{Bool, [], ◌∷◌, ◌++◌, none, some, Bytes, codes, if◌then◌else◌}
use lorelei.Tlc.Snippet.{
  ProcKind, function, callback, ProcDirection, guest_to_host, host_to_guest, ProcPhase, entry,
  adapt, caller, Clang, ProcSnippet, FunctionBodySource, decl_text, to_raw_text,
}

abbrev pub template_name : ProcKind → Bytes
template_name function = codes "ProcFn"
template_name callback = codes "ProcCb"

-- a function by its global-qualified name, a callback by its plain alias
abbrev pub proc_name : ProcKind → Bytes → Bytes
proc_name function name = codes "::" ++ name
proc_name callback name = name

abbrev pub direction_name : ProcDirection → Bytes
direction_name guest_to_host = codes "GuestToHost"
direction_name host_to_guest = codes "HostToGuest"

abbrev pub phase_name : ProcPhase → Bytes
phase_name entry = codes "Entry"
phase_name adapt = codes "Adapt"
phase_name caller = codes "Caller"

abbrev newline : Bytes
newline = 10 ∷ []

module _ (clang : Clang) where
  -- `ProcFn<::name, GuestToHost, Entry>`
  abbrev pub specialization : ProcSnippet clang → ProcPhase → Bytes
  specialization proc phase =
      template_name proc.kind
      ++ (codes "<"
          ++ (proc_name proc.kind proc.name
              ++ (codes ", "
                  ++ (direction_name proc.direction
                      ++ (codes ", " ++ (phase_name phase ++ codes ">"))))))

  abbrev pub declaration : ProcSnippet clang → ProcPhase → Bytes
  declaration proc phase =
      codes "template <>"
      ++ (newline
          ++ (codes "struct "
              ++ (specialization proc phase
                  ++ (codes " {"
                      ++ (newline
                          ++ (codes "    _PROC "
                              ++ (decl_text clang (proc.sources phase).function_info
                                    (codes "invoke")
                                  ++ (codes ";" ++ (newline ++ (codes "};" ++ newline))))))))))

  abbrev comment : Bytes → Bytes
  comment text = codes "    // " ++ (text ++ newline)

  abbrev pub body_text : FunctionBodySource clang → Bytes
  body_text body =
      comment (codes "prolog")
      ++ (to_raw_text body.prolog
          ++ (comment (codes "forward")
              ++ (to_raw_text body.forward
                  ++ (comment (codes "center")
                      ++ (to_raw_text body.center
                          ++ (comment (codes "backward")
                              ++ (to_raw_text body.backward
                                  ++ (comment (codes "epilog") ++ to_raw_text body.epilog))))))))

  abbrev pub definition : ProcSnippet clang → ProcPhase → Bytes
  definition proc phase =
      let src = proc.sources phase in
      to_raw_text src.head
      ++ (decl_text clang src.function_info
            (specialization proc phase ++ (codes "::" ++ (newline ++ codes "invoke")))
          ++ (codes " {"
              ++ (newline
                  ++ (body_text src.body ++ (codes "}" ++ (newline ++ to_raw_text src.tail))))))

  unfoldable pub text : ProcSnippet clang → ProcPhase → Bool → Bytes
  unfolding decl_text to_raw_text
  text proc phase has_decl = elim ((proc.sources phase).function_info.return_type) [
    | none ↦ []
    | some t ↦ if has_decl then declaration proc phase else definition proc phase
  ]
