-- ===== src/Gen.antt =====
-- example/nats/protoc-gen-demo/main.go: the names that the generator gives to files, packages and
-- types. The descriptors of descriptorpb are data, with the fields that the generator reads. log.Fatal
-- ends the program.
pub mod Output
pub mod Main
pub mod Names
pub mod Sound
pub mod Safe
use deepflow_wasm_go_sdk.Prelude.{
  ℕ, zero, suc, ◌-◌, Bool, true, false, Option, none, some, List, [], ◌∷◌, ◌++◌, map, ◌==◌,
  if◌then◌else◌, length, take, drop,
}
use deepflow_wasm_go_sdk.Prelude.Text.{codes, bytes_eq, has_prefix}
use deepflow_wasm_go_sdk.Go.Slices.{Bytes}
use deepflow_wasm_go_sdk.Go.Strings.{cut, split_byte, contains}

mutual
  pub data Descriptor : Type 0 where
    descriptor : Bytes → Descriptors → Descriptor

  pub data Descriptors : Type 0 where
    no_more : Descriptors
    more : Descriptor → Descriptors → Descriptors

-- A MethodDescriptorProto and a ServiceDescriptorProto.
pub record Method : Type 0 where
  pub name : Bytes
  pub input_type : Bytes
  pub output_type : Bytes

pub record Service : Type 0 where
  pub name : Bytes
  pub methods : List Method

-- A FileDescriptorProto. Its name is a pointer, which may be nil; what is read by a getter alone, which gives the empty
-- text for nil, is that text.
pub record File : Type 0 where
  pub name : Option Bytes
  pub service : List Service
  pub package_name : Bytes
  pub go_package : Bytes
  pub message_type : Descriptors

-- GetName of a FileDescriptorProto
abbrev or_empty : Option Bytes → Bytes
or_empty none = []
or_empty (some s) = s

abbrev pub file_name : File → Bytes
file_name f = or_empty f.name

-- A value, the end of the program by log.Fatal, or a panic.
pub data Run (A : Type 0) : Type 0 where
  done : A → Run A
  fatal panicked : Run A

infixl 5 ◌>>=◌
abbrev pub ◌>>=◌ : {A B : Type 0} → Run A → (A → Run B) → Run B
done a >>= f = f a
fatal >>= f = fatal
panicked >>= f = panicked

-- strings.LastIndex of a byte: what stands before and behind it, if it occurs.
abbrev in_later : ℕ → Bytes → Bool → Option (Bytes × Bytes) → Option (Bytes × Bytes)
in_later b bs here (some (before, behind)) = some (b ∷ before, behind)
in_later b bs true none = some ([], bs)
in_later b bs false none = none

unfoldable pub cut_last : ℕ → Bytes → Option (Bytes × Bytes)
cut_last c [] = none
cut_last c (b ∷ bs) = in_later b bs (b == c) (cut_last c bs)

-- strings.Join
unfoldable pub join : Bytes → List Bytes → Bytes
join s [] = []
join s (p ∷ []) = p
join s (p ∷ q ∷ ps) = p ++ s ++ join s (q ∷ ps)

abbrev pub second_part : List Bytes → Run Bytes
second_part (a ∷ b ∷ []) = done b
second_part (a ∷ b ∷ c ∷ parts) = fatal
second_part (a ∷ []) = panicked
second_part [] = panicked

-- getGoPackage
unfoldable pub get_go_package : File → Run Bytes
get_go_package fd =
    if contains fd.go_package (codes ";")
    then second_part (split_byte 59 fd.go_package)
    else done fd.go_package

-- goPackageOption: the import path and the package, or none where there is no option.
abbrev by_semicolon : Bytes → Bytes → Option (Bytes × Bytes) → Bytes × Bytes
by_semicolon imp_path pkg none = (imp_path, pkg)
by_semicolon imp_path pkg (some (before, behind)) = (before, behind)

abbrev by_slash : Bytes → Option (Bytes × Bytes) → Bytes × Bytes
by_slash pkg none = ([], pkg)
by_slash pkg (some (before, behind)) = by_semicolon pkg behind (cut 59 pkg)

abbrev option_of : Bytes → Option (Bytes × Bytes)
option_of [] = none
option_of (b ∷ bs) = some (by_slash (b ∷ bs) (cut_last 47 (b ∷ bs)))

unfoldable pub go_package_option : File → Run (Option (Bytes × Bytes))
go_package_option d = do pkg ← get_go_package d; done (option_of pkg)

-- splitTypePath
unfoldable pub split_type_path : Bytes → Run (List Bytes)
split_type_path [] = fatal
split_type_path (b ∷ bs) = if b == 46 then done (split_byte 46 bs) else fatal

-- lookupFileDescriptor
unfoldable pub lookup_file_descriptor : List File → Bytes → Option File
lookup_file_descriptor [] name = none
lookup_file_descriptor (fd ∷ fds) name =
    let later = lookup_file_descriptor fds name in
    if bytes_eq fd.package_name name then some fd else later

-- The loop of lookupMessageType, with the first `n` names as the package: how many names the package
-- that is found has, and its file. A path of no names is cut to -1 names.
abbrev found_or : ℕ → Run (ℕ × File) → Option File → Run (ℕ × File)
found_or n later (some fd) = done (n, fd)
found_or n later none = later

unfoldable pub lookup_package : List File → List Bytes → ℕ → Run (ℕ × File)
lookup_package files names zero = found_or 0 panicked (lookup_file_descriptor files [])
lookup_package files names (suc zero) =
    found_or 1 fatal (lookup_file_descriptor files (join (codes ".") (take 1 names)))
lookup_package files names (suc (suc n)) =
    let shorter = lookup_package files names (suc n) in
    found_or (suc (suc n)) shorter
      (lookup_file_descriptor files (join (codes ".") (take (suc (suc n)) names)))

abbrev get_name : Descriptor → Bytes
get_name (descriptor name nested) = name

abbrev get_nested_type : Descriptor → Descriptors
get_nested_type (descriptor name nested) = nested

unfoldable pub find_type : Descriptors → Bytes → Option Descriptor
find_type no_more name = none
find_type (more d ds) name =
    let later = find_type ds name in if bytes_eq (get_name d) name then some d else later

-- The types of a path, each in the one before it.
unfoldable pub find_nested : Option Descriptor → List Bytes → Run Descriptor
find_nested none tokens = fatal
find_nested (some d) [] = done d
find_nested (some d) (token ∷ tokens) = find_nested (find_type (get_nested_type d) token) tokens

abbrev find_path : File → List Bytes → Run (File × Descriptor)
find_path fd [] = panicked
find_path fd (name ∷ tokens) = do
  d ← find_nested (find_type fd.message_type name) tokens
  done (fd, d)

-- lookupMessageType
unfoldable pub lookup_message_type : List File → Bytes → Run (File × Descriptor)
lookup_message_type files name = do
  names ← split_type_path name
  found ← lookup_package files names (length names - 1)
  find_path found.1 (drop found.0 names)

abbrev underscored : ℕ → ℕ
underscored b = if b == 46 then 95 else b

abbrev trim_prefix : Bytes → Bytes → Bytes
trim_prefix s p = if has_prefix s p then drop (length p) s else s

-- getGoType: the package and the name of a type.
unfoldable pub get_go_type : List File → Bytes → Run (Bytes × Bytes)
get_go_type files pb_type =
    if contains pb_type (codes ".")
    then (do
      found ← lookup_message_type files pb_type
      pkg ← get_go_package found.0
      done (
        pkg,
        map underscored (trim_prefix pb_type (codes "." ++ found.0.package_name ++ codes ".")),
      ))
    else done ([], pb_type)

-- getPkgImportName
abbrev import_byte : ℕ → ℕ
import_byte b = if b == 46 then 95 else if b == 47 then 95 else if b == 45 then 95 else b

unfoldable pub get_pkg_import_name : File → Bytes → Run Bytes
get_pkg_import_name current_file go_pkg = do
  pkg ← get_go_package current_file
  done (if bytes_eq go_pkg pkg then [] else map import_byte go_pkg)

-- The function GoType of the template.
abbrev qualified : Bytes → Bytes → Bytes
qualified [] go_type = go_type
qualified (b ∷ bs) go_type = (b ∷ bs) ++ codes "." ++ go_type

abbrev import_of : File → Bytes → Run Bytes
import_of current_file [] = done []
import_of current_file (b ∷ bs) = get_pkg_import_name current_file (b ∷ bs)

unfoldable pub go_type : List File → File → Bytes → Run Bytes
go_type files current_file pb_type = do
  found ← get_go_type files pb_type
  import_name ← import_of current_file found.0
  done (qualified import_name found.1)

-- baseName
abbrev behind_last : Bytes → Option (Bytes × Bytes) → Bytes
behind_last name none = name
behind_last name (some (before, behind)) = behind

abbrev before_last : Bytes → Option (Bytes × Bytes) → Bytes
before_last name none = name
before_last name (some (before, behind)) = before

unfoldable pub base_name : Bytes → Bytes
base_name name =
    let last = behind_last name (cut_last 47 name) in before_last last (cut_last 46 last)

-- goPackageName: the name, and whether it comes from an option.
abbrev without_option : File → Bytes → Bytes × Bool
without_option d [] = (base_name (file_name d), false)
without_option d (b ∷ bs) = (b ∷ bs, false)

abbrev name_of : File → Option (Bytes × Bytes) → Bytes × Bool
name_of d (some (imp_path, pkg)) = (pkg, true)
name_of d none = without_option d d.package_name

unfoldable pub go_package_name : File → Run (Bytes × Bool)
go_package_name d = do o ← go_package_option d; done (name_of d o)
