-- ===== src/Lib.antt =====
-- A model of the runtime, the support library and the tools of Lorelei, which runs a guest
-- program's calls of shared libraries in native libraries of the host, with the theorems that
-- make it correct.
--
-- The parts and how they interact. The guest runtime turns a call of a library into a request;
-- the host runtime runs it as a coroutine, which may stop and have the guest run a callback, and
-- answers the lookups of thunk libraries from a database of thunks, which it reads from JSON
-- files and from packs that it discovers as their thunks appear. Variadic arguments go through
-- arrays of tagged values. The tools find out the functions and callbacks of a library from its
-- configuration and its sources, and print thunks for them. Below these stand strings with
-- variables, configuration files, a log filter, and a vector with inline storage.
--
-- Base holds what the others share: lists and texts over the native numbers, tests, and `Run`,
-- the outcome of code that may meet undefined behaviour or not end within its fuel. Index is the
-- map of names to positions that the configuration and the database keep beside a vector.
--
-- Str models src/libs/Support/StringExtras.cpp and include/lorelei/Support/StringExtras.h:
-- Str/Split join, split, replace; Str/Trim the trimming; Str/Varexp varexp_split, varexp_post
-- and varexp; Str/Format format. A text is the list of its bytes. The loops of split, replace,
-- format and varexp run on fuel that is one more than the length of the text, since each round
-- takes a byte off; the theorems show that it is enough. A nested varexp is of a shorter text.
--
-- Config models src/libs/Support/ConfigFile.cpp and include/lorelei/Support/ConfigFile.h:
-- Config/Line the helpers on a line, Config/Section `Section` and its getters, Config/File
-- getOrCreateSection, parseLine, load and clear. The file system is a parameter. The fuel of
-- load bounds the depth of includes; files that include each other in a circle use up any fuel,
-- as the code would its stack.
--
-- ThunkDatabase models src/libs/DLCall/ThunkDatabase.cpp and
-- include/lorelei/DLCall/ThunkDatabase.h, over json11 as a parameter, with the reading of
-- documents in ThunkDatabase/Json. The theorems are in ThunkDatabase/Entries on upsertForward,
-- ThunkDatabase/Names on the index by name and alias, ThunkDatabase/Layers on loadJsonDatabase,
-- and ThunkDatabase/Loads on load and loadPack.
--
-- Logging models the rules, the registry and the default filter and sink of
-- src/libs/Support/Logging.cpp and include/lorelei/Support/Logging.h. The calls of the registry
-- hold its lock, so that they come one after another: Logging/Registry has them as a relation.
--
-- VarSizeArray models include/lorelei/Support/VarSizeArray.h: an array is its elements, its
-- capacity and which buffer it uses, and a write behind the buffer is undefined. Sizes wrap at
-- 2^64.
--
-- VariadicAdaptor models src/libs/DLCall/Tools/VariadicAdaptor.cpp with
-- VariadicAdaptor_FFCall.cpp.inc and include/lorelei/DLCall/Tools/VariadicArgDefs.h, over ffcall
-- as a parameter. A value is its bits.
--
-- Runtime/Invocation models src/utils/TinyCoroutine/Invocation.cpp and the loop of
-- invokeFunction in src/modules/GuestRT/GuestClient.cpp; its fuel bounds the reentries, and the
-- cost of the calls is enough; the stack of invocations has the room that an assertion of
-- pushInvocation wants. Runtime/HostServer models the lookups of
-- src/modules/HostRT/HostServer.cpp, and Runtime/GuestClient the conversion of host functions in
-- GuestClient.cpp, which asks for them.
--
-- Ordered is std::map and std::set of texts, in the order of their keys, and LlvmJson is what
-- the tools take from llvm::json, with what its documentation says as a record of laws,
-- `Documented`, and trees that meet them.
--
-- Tlc models parts of the thunk compiler. Tlc/Summary is `ManifestSummary` of
-- src/libs/TLCApi/ManifestSummary.cpp, which stat writes. Tlc/Callbacks is the walk over types
-- of src/tools/TLC/Commands/Stat.cpp with its seeds from the configuration, in
-- Tlc/Callbacks/Config: the types of Clang are a parameter, a type is visited once for its text,
-- and fuel that exceeds the number of texts times the number of types that a type leads to is
-- enough. Tlc/Pipeline is the selection and running of passes in
-- src/libs/TLCApi/DocumentContext.cpp, where the passes are a parameter that changes the state
-- of the document; an error that a hook reports halts the processing. Tlc/Dump is
-- src/tools/TLC/Commands/Dump.cpp: what is requested and seen, fallback declarations in
-- Tlc/Dump/Fallback, and the output in Tlc/Dump/Output.
--
-- Tlc/Snippet is a proc and its text, of src/libs/TLCApi/ProcSnippet.cpp and
-- src/libs/ClangExtras/FunctionInfo.cpp. Tlc/Document is the collection of the requested procs
-- and Tlc/Document/Output the generated file, both of src/libs/TLCApi/DocumentContext.cpp; what
-- the matchers find in the translation unit and the mangled names are parameters.
-- Tlc/CodeTemplates is src/tools/TLC/Utils/PassCodeTemplates.h and Tlc/DefaultBuilder
-- src/tools/TLC/Passes/Builder/DefaultBuilder.cpp. Tlc/Document/Output/Whole and
-- Tlc/DefaultBuilder/Sides say what is to be written, apart from the code.
--
-- Hlr/Statistics is `SourceStatistics` of src/tools/HLR/Utils/SourceStatistics.cpp.
--
-- Not modelled: the other passes that print thunks, and those that rewrite host libraries, which
-- are code over the trees of Clang, and the matching of declarations; options of the tools;
-- register states, stacks and system calls, which are assembly; the reentries for threads;
-- floating point (getDouble); iterators, wide strings and the formatting of log records; the
-- printf and json11 libraries.
pub mod Base
pub mod Str
pub mod Config
pub mod Index
pub mod ThunkDatabase
pub mod Logging
pub mod VarSizeArray
pub mod VariadicAdaptor
pub mod Runtime
pub mod Ordered
pub mod LlvmJson
pub mod Hlr
pub mod Tlc
