-- ===== src/Gen/Names.antt =====
-- Which files and types the generator finds.
use deepflow_wasm_go_sdk.Prelude.{
  ℕ, zero, suc, ◌-◌, ◌<◌, ◌≡◌, ◌≢◌, refl, false, Option, none, some, List, [], ◌∷◌, ◌++◌, All,
  length, drop, arith, length-drop,
}
use deepflow_wasm_go_sdk.Prelude.Text.{bytes_eq}
use deepflow_wasm_go_sdk.Go.Slices.{Bytes}
use deepflow_wasm_go_sdk.Gen.{
  File, Descriptor, descriptor, Run, done, fatal, panicked, ◌>>=◌, lookup_file_descriptor,
  lookup_package, found_or, find_type, find_nested, find_path, split_type_path, lookup_message_type,
  file_name,
}
use deepflow_wasm_go_sdk.Gen.Main.{find_file}

-- A file that is not in the request is taken to be the last file of the request: the test for nil
-- behind the loop of main finds it missing only where the request has no file.
pub find_file_missing :
    (name : Bytes) (fd : Option File) (files : List File) (last : File)
    → All (λ f. bytes_eq name (file_name f) ≡ false) files
    → bytes_eq name (file_name last) ≡ false
    → find_file name fd (files ++ (last ∷ [])) ≡ some last
unfolding find_file
find_file_missing name fd [] last h e = rw e
find_file_missing name fd (f ∷ files) last (hf, hs) e =
    rw (hf, find_file_missing name (some f) files last hs e)

-- A type that is not below a package, where no file is without a package, makes lookupMessageType
-- panic.
pub lookup_message_type_panics :
    (files : List File) (name : Bytes) (a : Bytes)
    → split_type_path name ≡ done (a ∷ [])
    → lookup_file_descriptor files [] ≡ none
    → lookup_message_type files name ≡ panicked
unfolding lookup_message_type lookup_package
lookup_message_type_panics files name a e f = rw (e, f)

-- No panic, and fewer names than `n` belong to the package.
data Below (n : ℕ) : Run (ℕ × File) → Type 0 where
  found : {k : ℕ} {fd : File} → k < n → Below n (done (k, fd))
  ended : Below n fatal

found_or-Below :
    (n k : ℕ) (later : Run (ℕ × File)) (o : Option File)
    → k < n
    → Below n later
    → Below n (found_or k later o)
found_or-Below n k later none h b = b
found_or-Below n k later (some fd) h b = found h

lookup_package-Below :
    (files : List File) (names : List Bytes) (k n : ℕ)
    → suc k < n
    → Below n (lookup_package files names (suc k))
unfolding lookup_package
lookup_package-Below files names zero n h = found_or-Below n 1 _ _ h ended
lookup_package-Below files names (suc k) n h =
    found_or-Below n (suc (suc k)) _ _ h (lookup_package-Below files names k n (omega arith))

find_nested_no_panic :
    (o : Option Descriptor) (tokens : List Bytes) → find_nested o tokens ≢ panicked
unfolding find_nested
find_nested_no_panic none tokens = λ e. cc
find_nested_no_panic (some d) [] = λ e. cc
find_nested_no_panic (some (descriptor n ds)) (t ∷ tokens) =
    find_nested_no_panic (find_type ds t) tokens

done_no_panic :
    {A B : Type 0} (r : Run A) (f : A → B) → r ≢ panicked → (r >>= λ a. done (f a)) ≢ panicked
done_no_panic (done a) f h e = cc
done_no_panic fatal f h e = cc
done_no_panic panicked f h e = h refl

find_path_no_panic :
    (fd : File) (names : List Bytes) → length names ≢ 0 → find_path fd names ≢ panicked
find_path_no_panic fd [] h = absurd (h refl)
find_path_no_panic fd (n ∷ tokens) h =
    done_no_panic (find_nested (find_type fd.message_type n) tokens) _
      (find_nested_no_panic _ tokens)

-- lookupMessageType does not panic on a type that stands below a package.
pub lookup_message_type_safe :
    (files : List File) (name a b : Bytes) (names : List Bytes)
    → split_type_path name ≡ done (a ∷ b ∷ names)
    → lookup_message_type files name ≢ panicked
unfolding lookup_message_type
lookup_message_type_safe files name a b names e =
    let less : suc (suc (length names)) - 1 ≡ suc (length names) = omega arith in
    rw (e, less)
      (step (lookup_package files (a ∷ b ∷ names) (suc (length names))) (
        lookup_package-Below files (a ∷ b ∷ names) (length names) (suc (suc (length names)))
          (omega arith)))
  where
    step :
        (r : Run (ℕ × File))
        → Below (suc (suc (length names))) r
        → (r >>= λ f. find_path f.1 (drop f.0 (a ∷ b ∷ names))) ≢ panicked
    step (done (k, fd)) (found h) =
        find_path_no_panic fd (drop k (a ∷ b ∷ names))
          (omega (arith, length-drop k (a ∷ b ∷ names)))
    step fatal ended = λ p. cc
    step panicked below = elim below [ ]
