-- ===== src/Gen/Safe.antt =====
-- The generator does not panic where every file has a name.
use deepflow_wasm_go_sdk.Prelude.{
  ℕ, ◌≤◌, ◌≡◌, ◌≢◌, refl, true, false, Bool, Bool-cases, inl, inr, Option, none, some, List, [],
  ◌∷◌, ◌==◌, All, length, arith, if◌then◌else◌,
}
use deepflow_wasm_go_sdk.Prelude.Text.{codes, bytes_eq}
use deepflow_wasm_go_sdk.Go.Slices.{Bytes}
use deepflow_wasm_go_sdk.Go.Strings.{cut, split_byte, contains, into_first}
use deepflow_wasm_go_sdk.Gen.{
  File, file_name, Run, done, fatal, panicked, ◌>>=◌, second_part, get_go_package,
  go_package_option, go_type, Method, Service,
}
use deepflow_wasm_go_sdk.Gen.Output.{
  go_file_name, the_name, file_text, services_text, methods_text, called,
}
use deepflow_wasm_go_sdk.Gen.Main.{
  CodeGeneratorRequest, set_param, set_params, at_equals, find_file, generate_file, generate_files,
  unless_empty, generate,
}

-- Not a panic.
pub data Ends {A : Type 0} : Run A → Type 0 where
  returns : {a : A} → Ends (done a)
  exits : Ends fatal

Ends-bind :
    {A B : Type 0} (r : Run A) (f : A → Run B) → Ends r → ((a : A) → Ends (f a)) → Ends (r >>= f)
Ends-bind (done a) f e k = k a
Ends-bind fatal f e k = exits
Ends-bind panicked f e k = elim e [ ]

-- Splitting gives a part at least, and two where the separator occurs.
length-into_first :
    (b : ℕ) (parts : List Bytes) → 1 ≤ length parts → length (into_first b parts) ≡ length parts
length-into_first b [] h = absurd (omega arith)
length-into_first b (p ∷ ps) h = refl

some_part : (c : ℕ) (s : Bytes) → 1 ≤ length (split_byte c s)
unfolding split_byte
some_part c [] = omega arith
some_part c (b ∷ bs) = elim (Bool-cases (b == c)) [
  | inl e ↦ rw e (omega arith)
  | inr e ↦
      rw e (omega (arith, some_part c bs, length-into_first b (split_byte c bs) (some_part c bs)))
]

two_parts : (s : Bytes) → contains s (codes ";") ≡ true → 2 ≤ length (split_byte 59 s)
unfolding split_byte contains
two_parts [] h = cc
two_parts (b ∷ bs) h = elim (Bool-cases (b == 59)) [
  | inl e ↦ rw e (omega (arith, some_part 59 bs))
  | inr e ↦
      let later : contains bs (codes ";") ≡ true = ground (arith, e, h) in
      rw e (
        omega (
          arith,
          two_parts bs later,
          length-into_first 59 (split_byte 59 bs) (some_part 59 bs),
          length-into_first b (split_byte 59 bs) (some_part 59 bs),
        ))
]

second_part-Ends : (parts : List Bytes) → 2 ≤ length parts → Ends (second_part parts)
second_part-Ends [] h = absurd (omega arith)
second_part-Ends (a ∷ []) h = absurd (omega arith)
second_part-Ends (a ∷ b ∷ []) h = returns
second_part-Ends (a ∷ b ∷ c ∷ parts) h = exits

get_go_package-Ends : (fd : File) → Ends (get_go_package fd)
unfolding get_go_package
get_go_package-Ends fd = elim (Bool-cases (contains fd.go_package (codes ";"))) [
  | inl e ↦ rw e (second_part-Ends (split_byte 59 fd.go_package) (two_parts fd.go_package e))
  | inr e ↦ rw e returns
]

go_file_name-Ends : (relative : Bool) (fd : File) → fd.name ≢ none → Ends (go_file_name relative fd)
unfolding go_file_name go_package_option
go_file_name-Ends relative fd named =
    Ends-bind (the_name fd.name) _ (present fd.name named) λ given. short relative _ _ (
      Ends-bind (get_go_package fd >>= λ pkg. done _) _
        (Ends-bind (get_go_package fd) _ (get_go_package-Ends fd) λ pkg. returns) λ option. returns)
  where
    present : (o : Option Bytes) → o ≢ none → Ends (the_name o)
    present none h = absurd (h refl)
    present (some name) h = returns

    short : (b : Bool) (name : Bytes) (r : Run Bytes) → Ends r → Ends (if b then done name else r)
    short true name r e = returns
    short false name r e = e

-- A function of the template that panics ends the program.
called-Ends : (r : Run Bytes) → Ends (called r)
called-Ends (done text) = returns
called-Ends fatal = exits
called-Ends panicked = exits

methods_text-Ends :
    (files : List File) (fd : File) (ms : List Method) → Ends (methods_text files fd ms)
unfolding methods_text
methods_text-Ends files fd [] = returns
methods_text-Ends files fd (m ∷ ms) =
    Ends-bind (called (go_type files fd m.input_type)) _ (called-Ends _) λ input.
      Ends-bind (called (go_type files fd m.output_type)) _ (called-Ends _) λ output.
        Ends-bind (methods_text files fd ms) _ (methods_text-Ends files fd ms) λ rest. returns

services_text-Ends :
    (files : List File) (fd : File) (ss : List Service) → Ends (services_text files fd ss)
unfolding services_text
services_text-Ends files fd [] = returns
services_text-Ends files fd (s ∷ ss) =
    Ends-bind (methods_text files fd s.methods) _ (methods_text-Ends files fd s.methods) λ methods.
      Ends-bind (services_text files fd ss) _ (services_text-Ends files fd ss) λ rest. returns

file_text-Ends : (files : List File) (fd : File) → Ends (file_text files fd)
unfolding file_text
file_text-Ends files fd =
    Ends-bind (services_text files fd fd.service) _ (services_text-Ends files fd fd.service)
      λ services. returns

Ends-if : {A : Type 0} (b : Bool) (r q : Run A) → Ends r → Ends q → Ends (if b then r else q)
Ends-if true r q e f = e
Ends-if false r q e f = f

set_params-Ends : (relative : Bool) (ps : List Bytes) → Ends (set_params relative ps)
unfolding set_params
set_params-Ends relative [] = returns
set_params-Ends relative (p ∷ ps) =
    let (param, value) = at_equals p (cut 61 p) in
    Ends-bind (set_param relative param value) _
      (Ends-if (bytes_eq param (codes "plugins")) _ _ exits (
        Ends-if (bytes_eq param (codes "paths")) _ _
          (Ends-if (bytes_eq value (codes "source_relative")) _ _ returns
            (Ends-if (bytes_eq value (codes "import")) _ _ returns exits))
          returns))
      λ now. set_params-Ends now ps

-- A file that is found has a name, if those of the list have.
abbrev pub Named : File → Type 0
Named f = f.name ≢ none

data NamedIn : Option File → Type 0 where
  no_file : NamedIn none
  named_file : {f : File} → Named f → NamedIn (some f)

find_file-NamedIn :
    (name : Bytes) (o : Option File) (files : List File)
    → NamedIn o
    → All Named files
    → NamedIn (find_file name o files)
unfolding find_file
find_file-NamedIn name o [] n all = n
find_file-NamedIn name o (f ∷ files) n (h, all) = elim (Bool-cases (bytes_eq name (file_name f))) [
  | inl e ↦ rw e (named_file h)
  | inr e ↦ rw e (find_file-NamedIn name (some f) files (named_file h) all)
]

generate_file-Ends :
    (relative : Bool) (files : List File) (o : Option File)
    → NamedIn o
    → Ends (generate_file relative files o)
generate_file-Ends relative files none n = exits
generate_file-Ends relative files (some fd) (named_file h) =
    Ends-bind (file_text files fd) _ (file_text-Ends files fd) λ content.
      Ends-bind (go_file_name relative fd) _ (go_file_name-Ends relative fd h) λ name. returns

generate_files-Ends :
    (relative : Bool) (files : List File) (names : List Bytes)
    → All Named files
    → Ends (generate_files relative files names)
unfolding generate_files
generate_files-Ends relative files [] all = returns
generate_files-Ends relative files (name ∷ names) all =
    Ends-bind (generate_file relative files (find_file name none files)) _
      (generate_file-Ends relative files _ (find_file-NamedIn name none files no_file all))
      λ output.
        Ends-bind (generate_files relative files names) _
          (generate_files-Ends relative files names all) λ outputs. returns

unless_empty-Ends :
    {A : Type 0} (names : List Bytes) (r : Run A) → Ends r → Ends (unless_empty names r)
unless_empty-Ends [] r e = exits
unless_empty-Ends (name ∷ names) r e = e

-- Where every file of the request has a name, main does not panic: it gives the files of the response, or ends the
-- program by log.Fatal, whatever the parameter, the options, the services and the types of the files are.
pub generate-Ends :
    (request : CodeGeneratorRequest) → All Named request.proto_file → Ends (generate request)
unfolding generate
generate-Ends request all = unless_empty-Ends request.file_to_generate _ (
    Ends-bind (set_params false (split_byte 44 request.parameter)) _
      (set_params-Ends false (split_byte 44 request.parameter))
      λ relative. generate_files-Ends relative request.proto_file request.file_to_generate all)
