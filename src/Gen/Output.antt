-- ===== src/Gen/Output.antt =====
-- example/nats/protoc-gen-demo/main.go, goFileName, with the functions of the package path that it calls, and
-- example/nats/protoc-gen-demo/tmpl.go, the template as text/template prints it.
use deepflow_wasm_go_sdk.Prelude.{
  ◌-◌, Bool, true, false, ◌||◌, Option, none, some, List, [], ◌∷◌, ◌++◌, if◌then◌else◌, length,
  take,
}
use deepflow_wasm_go_sdk.Prelude.Text.{codes, bytes_eq, has_prefix}
use deepflow_wasm_go_sdk.Go.Slices.{Bytes}
use deepflow_wasm_go_sdk.Go.Strings.{split_byte}
use deepflow_wasm_go_sdk.Gen.{
  File, file_name, Method, Service, Run, done, fatal, panicked, ◌>>=◌, cut_last, behind_last, join,
  go_package_option, go_type,
}

-- path.Ext: what the last element of the path has from its last dot on.
abbrev from_dot : Option (Bytes × Bytes) → Bytes
from_dot none = []
from_dot (some (before, behind)) = 46 ∷ behind

unfoldable pub path_ext : Bytes → Bytes
path_ext path = from_dot (cut_last 46 (behind_last path (cut_last 47 path)))

-- path.Clean: the elements are pushed on a stack, the last one first.
abbrev push_parent : Bool → List Bytes → List Bytes
push_parent true [] = []
push_parent false [] = codes ".." ∷ []
push_parent rooted (e ∷ stack) = if bytes_eq e (codes "..") then codes ".." ∷ e ∷ stack else stack

abbrev push : Bool → List Bytes → Bytes → List Bytes
push rooted stack e =
    if bytes_eq e [] || bytes_eq e (codes ".")
    then stack
    else if bytes_eq e (codes "..")
    then push_parent rooted stack
    else e ∷ stack

unfoldable pub push_all : Bool → List Bytes → List Bytes → List Bytes
push_all rooted stack [] = stack
push_all rooted stack (e ∷ es) = push_all rooted (push rooted stack e) es

abbrev reversed : List Bytes → List Bytes → List Bytes
reversed [] out = out
reversed (e ∷ es) out = reversed es (e ∷ out)

abbrev printed : Bool → Bytes → Bytes
printed true path = 47 ∷ path
printed false [] = codes "."
printed false (b ∷ path) = b ∷ path

unfoldable pub clean : Bytes → Bytes
clean path =
    let rooted = has_prefix path (codes "/") in
    printed rooted (join (codes "/") (reversed (push_all rooted [] (split_byte 47 path)) []))

-- path.Join of two elements that are not empty.
abbrev pub path_join : Bytes → Bytes → Bytes
path_join a b = clean (a ++ codes "/" ++ b)

-- The name without an extension of protocol buffers.
unfoldable pub without_ext : Bytes → Bytes
without_ext name =
    let ext = path_ext name in
    if bytes_eq ext (codes ".proto") || bytes_eq ext (codes ".protodevel")
    then take (length name - length ext) name
    else name

-- Below the import path of the option, if it has one.
abbrev below : Bytes → Option (Bytes × Bytes) → Bytes
below name none = name
below name (some ([], pkg)) = name
below name (some (b ∷ imp_path, pkg)) =
    path_join (b ∷ imp_path) (behind_last name (cut_last 47 name))

-- *d.Name of a nil pointer panics.
abbrev pub the_name : Option Bytes → Run Bytes
the_name none = panicked
the_name (some name) = done name

-- goFileName
unfoldable pub go_file_name : Bool → File → Run Bytes
go_file_name paths_source_relative d = do
  given ← the_name d.name
  let name = without_ext given ++ codes ".demo.go"
  (if paths_source_relative
      then done name
      else (do option ← go_package_option d; done (below name option)))

-- What a function of the template gives. text/template turns a panic of it into an error of Execute, which ends
-- the program as log.Fatal does.
abbrev pub called : Run Bytes → Run Bytes
called (done text) = done text
called fatal = fatal
called panicked = fatal

-- Behind {{GoType ..}}, up to the end of the block.
abbrev marshal_text : Bytes
marshal_text =
    codes "\n\t\t\t\t\t\tobj.UnmarshalVT(data)\n\t\t\t\t\t\tdata, err := json.Marshal(obj)\n"
    ++ codes "\t\t\t\t\t\tif err != nil {\n\t\t\t\t\t\t\treturn nil\n\t\t\t\t\t\t}\n"
    ++ codes "\t\t\t\t\t\treturn data\n\t\t\t\t\t}"

-- {{- range .Method}} .. {{- end}}
unfoldable pub methods_text : List File → File → List Method → Run Bytes
methods_text files current_file [] = done []
methods_text files current_file (m ∷ ms) = do
  input ← called (go_type files current_file m.input_type)
  output ← called (go_type files current_file m.output_type)
  rest ← methods_text files current_file ms
  done (
      codes "\n\t\t\t\tcase \""
      ++ m.name
      ++ codes "\":\n\t\t\t\t\tif isRequest {\n\t\t\t\t\t\tvar obj "
      ++ input
      ++ marshal_text
      ++ codes " else {\n\t\t\t\t\t\tvar obj "
      ++ output
      ++ marshal_text
      ++ rest)

-- {{- range .Service}} .. {{- end}}
unfoldable pub services_text : List File → File → List Service → Run Bytes
services_text files current_file [] = done []
services_text files current_file (s ∷ ss) = do
  methods ← methods_text files current_file s.methods
  rest ← services_text files current_file ss
  done (
      codes "\n\t\tcase \""
      ++ s.name
      ++ codes "\":\n\t\t\tswitch method {"
      ++ methods
      ++ codes "\n\t\t\t}"
      ++ rest)

-- tmpl.Execute(&buf, fd), with currentFile = fd
unfoldable pub file_text : List File → File → Run Bytes
file_text files fd = do
  services ← services_text files fd fd.service
  done (
      codes "// This code was autogenerated from "
      ++ file_name fd
      ++ codes ", do not edit.\n\npackage "
      ++ fd.package_name
      ++ codes
          "\n\nimport (\n\t\"encoding/json\"\n)\n\nfunc ProtobufToJson(service string, method string, "
      ++ codes "isRequest bool, data []byte) []byte {\n\tswitch service {"
      ++ services
      ++ codes "\n\t}\n\treturn nil\n}\n")
