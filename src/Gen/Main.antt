-- ===== src/Gen/Main.antt =====
-- example/nats/protoc-gen-demo/main.go, main: from the request, which proto.Unmarshal has parsed, to the files of the
-- response, which proto.Marshal prints.
use deepflow_wasm_go_sdk.Prelude.{
  Bool, true, false, Option, none, some, List, [], ◌∷◌, if◌then◌else◌,
}
use deepflow_wasm_go_sdk.Prelude.Text.{codes, bytes_eq}
use deepflow_wasm_go_sdk.Go.Slices.{Bytes}
use deepflow_wasm_go_sdk.Go.Strings.{cut, split_byte}
use deepflow_wasm_go_sdk.Gen.{File, file_name, Run, done, fatal, ◌>>=◌}
use deepflow_wasm_go_sdk.Gen.Output.{go_file_name, file_text}

-- A CodeGeneratorRequest and a file of a CodeGeneratorResponse.
pub record CodeGeneratorRequest : Type 0 where
  pub file_to_generate : List Bytes
  pub parameter : Bytes
  pub proto_file : List File

pub record OutputFile : Type 0 where
  pub name : Bytes
  pub content : Bytes

-- The parameter and its value, which is empty without an equals sign.
abbrev pub at_equals : Bytes → Option (Bytes × Bytes) → Bytes × Bytes
at_equals param none = (param, [])
at_equals param (some (name, value)) = (name, value)

-- The parameters: what they leave in pathsSourceRelative. strings.Split gives at least one plugin, and any plugin is invalid.
abbrev pub set_param : Bool → Bytes → Bytes → Run Bool
set_param paths_source_relative param value =
    if bytes_eq param (codes "plugins")
    then fatal
    else if bytes_eq param (codes "paths")
    then (if bytes_eq value (codes "source_relative")
        then done true
        else if bytes_eq value (codes "import")
        then done false
        else fatal)
    else done paths_source_relative

unfoldable pub set_params : Bool → List Bytes → Run Bool
set_params paths_source_relative [] = done paths_source_relative
set_params paths_source_relative (p ∷ ps) = do
  let param = at_equals p (cut 61 p)
  now ← set_param paths_source_relative param.0 param.1
  set_params now ps

-- for _, fd = range request.GetProtoFile(), up to a file of the name. Where there is none, `fd` is the
-- last one.
unfoldable pub find_file : Bytes → Option File → List File → Option File
find_file name fd [] = fd
find_file name fd (f ∷ files) =
    let later = find_file name (some f) files in
    if bytes_eq name (file_name f) then some f else later

abbrev pub generate_file : Bool → List File → Option File → Run OutputFile
generate_file paths_source_relative files none = fatal
generate_file paths_source_relative files (some fd) = do
  content ← file_text files fd
  name ← go_file_name paths_source_relative fd
  done (record { name = name; content = content })

unfoldable pub generate_files : Bool → List File → List Bytes → Run (List OutputFile)
generate_files paths_source_relative files [] = done []
generate_files paths_source_relative files (name ∷ names) = do
  output ← generate_file paths_source_relative files (find_file name none files)
  outputs ← generate_files paths_source_relative files names
  done (output ∷ outputs)

abbrev pub unless_empty : {A : Type 0} → List Bytes → Run A → Run A
unless_empty [] r = fatal
unless_empty (name ∷ names) r = r

-- main
unfoldable pub generate : CodeGeneratorRequest → Run (List OutputFile)
generate request = unless_empty request.file_to_generate (do
  paths_source_relative ← set_params false (split_byte 44 request.parameter)
  generate_files paths_source_relative request.proto_file request.file_to_generate)
