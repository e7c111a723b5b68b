-- ===== src/Tests/Generator.antt =====
-- The generator, on a file of the tests.
use deepflow_wasm_go_sdk.Prelude.{◌≡◌, refl, ◌≢◌, none, false, some, [], ◌∷◌}
use deepflow_wasm_go_sdk.Prelude.Text.{codes}
use deepflow_wasm_go_sdk.Gen.{
  File, descriptor, no_more, more, done, lookup_message_type, get_go_type, get_go_package,
  get_pkg_import_name, go_type, split_type_path, lookup_package, lookup_file_descriptor, find_type,
  find_nested, join,
}
use deepflow_wasm_go_sdk.Gen.{cut_last, go_package_option}
use deepflow_wasm_go_sdk.Gen.Output.{
  path_ext, path_join, without_ext, clean, push_all, go_file_name, file_text, services_text,
  methods_text,
}
use deepflow_wasm_go_sdk.Gen.Main.{CodeGeneratorRequest, generate}
use deepflow_wasm_go_sdk.Gen.Safe.{Ends, generate-Ends}
use deepflow_wasm_go_sdk.Gen.Sound.{Resolved, lookup_message_type-Resolved}
use deepflow_wasm_go_sdk.Go.Strings.{cut, split_byte, contains}

abbrev file : File
file = record {
  name = some (codes "d/demo.proto");
  service = [];
  package_name = codes "a.b";
  go_package = codes "./x;pb-go";
  message_type =
      more (descriptor (codes "M") (more (descriptor (codes "N") no_more) no_more)) no_more;
}

nested_type :
    go_type (file ∷ []) (record file { go_package = [] }) (codes ".a.b.M.N")
    ≡ done (codes "pb_go.M_N")
unfolding go_type get_go_type lookup_message_type get_go_package get_pkg_import_name split_type_path
    lookup_package lookup_file_descriptor find_type find_nested join cut split_byte contains
nested_type = refl

cleaned :
    (path_join (codes "/../a//./b/../c") (codes "d") ≡ codes "/a/c/d")
    × (path_join (codes "../../x/..") (codes "..") ≡ codes "../../..")
    × (path_join (codes "a") (codes "..") ≡ codes ".")
unfolding clean push_all join split_byte cut_last
cleaned = (refl, refl, refl)

abbrev service_file : File
service_file = record file {
  go_package = codes "x/y";
  service =
      record {
        name = codes "S";
        methods =
            record { name = codes "f"; input_type = codes ".a.b.M"; output_type = codes ".a.b.M.N" }
            ∷ [];
      }
      ∷ [];
}

named : go_file_name false service_file ≡ done (codes "x/y/demo.demo.go")
unfolding go_file_name path_ext without_ext clean push_all join split_byte cut cut_last
    go_package_option get_go_package contains
named = refl

content :
    file_text (service_file ∷ []) service_file
    ≡ done (
        codes
          "// This code was autogenerated from d/demo.proto, do not edit.\n\npackage a.b\n\nimport (\n\t\"encoding/json\"\n)\n\nfunc ProtobufToJson(service string, method string, isRequest bool, data []byte) []byte {\n\tswitch service {\n\t\tcase \"S\":\n\t\t\tswitch method {\n\t\t\t\tcase \"f\":\n\t\t\t\t\tif isRequest {\n\t\t\t\t\t\tvar obj M\n\t\t\t\t\t\tobj.UnmarshalVT(data)\n\t\t\t\t\t\tdata, err := json.Marshal(obj)\n\t\t\t\t\t\tif err != nil {\n\t\t\t\t\t\t\treturn nil\n\t\t\t\t\t\t}\n\t\t\t\t\t\treturn data\n\t\t\t\t\t} else {\n\t\t\t\t\t\tvar obj M_N\n\t\t\t\t\t\tobj.UnmarshalVT(data)\n\t\t\t\t\t\tdata, err := json.Marshal(obj)\n\t\t\t\t\t\tif err != nil {\n\t\t\t\t\t\t\treturn nil\n\t\t\t\t\t\t}\n\t\t\t\t\t\treturn data\n\t\t\t\t\t}\n\t\t\t}\n\t}\n\treturn nil\n}\n")
unfolding file_text services_text methods_text go_type get_go_type lookup_message_type
    get_go_package get_pkg_import_name split_type_path lookup_package lookup_file_descriptor
    find_type find_nested join cut split_byte contains
content = refl

nested_found :
    lookup_message_type (file ∷ []) (codes ".a.b.M.N") ≡ done (file, descriptor (codes "N") no_more)
unfolding lookup_message_type split_type_path lookup_package lookup_file_descriptor find_type
    find_nested join split_byte
nested_found = refl

lookup_message_type-Resolved_example :
    Resolved (file ∷ []) (codes ".a.b.M.N") file (descriptor (codes "N") no_more)
lookup_message_type-Resolved_example =
    lookup_message_type-Resolved (file ∷ []) (codes ".a.b.M.N") file
      (descriptor (codes "N") no_more) nested_found

-- Two files to generate, the second of which no file has as its name.
abbrev request : CodeGeneratorRequest
request = record {
  file_to_generate = codes "d/demo.proto" ∷ codes "e.proto" ∷ [];
  parameter = codes "paths=source_relative";
  proto_file = service_file ∷ [];
}

file_named : file.name ≢ none
file_named e = cc

generate-Ends_example : Ends (generate request)
generate-Ends_example = generate-Ends request (file_named, tt)
