-- ===== src/Tlc/DefaultBuilder/Emitted.antt =====
-- That the default builder, src/tools/TLC/Passes/Builder/DefaultBuilder.cpp, writes the two sides of a
-- call, with the code templates of src/tools/TLC/Utils/PassCodeTemplates.h.
use lorelei.Base.{codes}
use lorelei.Tlc.Snippet.{ProcPhase, Clang, ProcSource, ProcSnippet}
use lorelei.Tlc.Document.{Mode}
use lorelei.Tlc.DefaultBuilder.{built_source}
use lorelei.Tlc.DefaultBuilder.Sides.{callee}
use lorelei.Tlc.DefaultBuilder.Phases.{sent_call}

module _ (clang : Clang) where
  open clang use {QualType, is_void, view_return_type, view_arg_types}

  -- the sources of the pass, for what it formats
  abbrev built : Mode → ProcSnippet clang → QualType → ProcPhase → ProcSource clang
  built mode proc t =
      let call = callee proc.kind proc.direction proc.name in
      built_source clang mode proc t (call (codes "Adapt")) (call (codes "Caller"))
        (sent_call clang proc.kind proc.direction proc.name t) (call (codes "Exec"))
