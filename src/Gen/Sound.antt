-- ===== src/Gen/Sound.antt =====
-- What lookupMessageType finds: a type below the package of a file, by its path.
use deepflow_wasm_go_sdk.Prelude.{
  ℕ, zero, suc, ◌-◌, ◌≤◌, ◌<◌, ◌≡◌, inl, inr, refl, sym, subst, ap, ◌∙◌, true, Bool-cases, Option,
  none, some, List, [], ◌∷◌, length, take, drop, arith, ◌==◌,
}
use deepflow_wasm_go_sdk.Prelude.Text.{codes, bytes_eq, bytes_eq_iff}
use deepflow_wasm_go_sdk.Go.Slices.{Bytes}
use deepflow_wasm_go_sdk.Gen.{
  File, Descriptor, Descriptors, no_more, more, Run, done, fatal, panicked, ◌>>=◌, join, get_name,
  get_nested_type, lookup_file_descriptor, lookup_package, found_or, find_type, find_nested,
  find_path, split_type_path, lookup_message_type,
}

pub data Member (d : Descriptor) : Descriptors → Type 0 where
  first : {ds : Descriptors} → Member d (more d ds)
  later : {e : Descriptor} {ds : Descriptors} → Member d ds → Member d (more e ds)

-- The type that a path of names leads to, each name that of a type in the one before it.
pub data Reaches (d : Descriptor) : Descriptors → List Bytes → Type 0 where
  end_at :
      {ds : Descriptors} {name : Bytes} → Member d ds → get_name d ≡ name → Reaches d ds (name ∷ [])
  through :
      {ds : Descriptors} {name : Bytes} {names : List Bytes} (e : Descriptor)
      → Member e ds
      → get_name e ≡ name
      → Reaches d (get_nested_type e) names
      → Reaches d ds (name ∷ names)

find_type-Member :
    (ds : Descriptors) (name : Bytes) (d : Descriptor)
    → find_type ds name ≡ some d
    → Member d ds × (get_name d ≡ name)
unfolding find_type
find_type-Member no_more name d e = cc
find_type-Member (more c ds) name d e = elim (Bool-cases (bytes_eq (get_name c) name)) [
  | inl b ↦
      let same : c ≡ d = ground (arith) in
      (
        subst (λ x. Member x (more c ds)) same first,
        ap get_name (sym same) ∙ (bytes_eq_iff (get_name c) name).0 b,
      )
  | inr b ↦ let (m, n) = find_type-Member ds name d (ground arith) in (later m, n)
]

find_nested-Reaches :
    (ds : Descriptors) (name : Bytes) (o : Option Descriptor) (names : List Bytes) (d : Descriptor)
    → ((c : Descriptor) → o ≡ some c → Member c ds × (get_name c ≡ name))
    → find_nested o names ≡ done d
    → Reaches d ds (name ∷ names)
unfolding find_nested
find_nested-Reaches ds name none names d q e = cc
find_nested-Reaches ds name (some c) [] d q e =
    let same : c ≡ d = cc in
    let (m, n) = q c refl in subst (λ x. Reaches x ds (name ∷ [])) same (end_at m n)
find_nested-Reaches ds name (some c) (token ∷ names) d q e =
    let (m, n) = q c refl in
    through c m n (
      find_nested-Reaches (get_nested_type c) token (find_type (get_nested_type c) token) names d
        (λ t. find_type-Member (get_nested_type c) token t) e)

-- The file is one of those, with that package.
pub data HasPackage (fd : File) (name : Bytes) : List File → Type 0 where
  here : {files : List File} → fd.package_name ≡ name → HasPackage fd name (fd ∷ files)
  there : {f : File} {files : List File} → HasPackage fd name files → HasPackage fd name (f ∷ files)

lookup_file_descriptor-HasPackage :
    (files : List File) (name : Bytes) (fd : File)
    → lookup_file_descriptor files name ≡ some fd
    → HasPackage fd name files
unfolding lookup_file_descriptor
lookup_file_descriptor-HasPackage [] name fd e = cc
lookup_file_descriptor-HasPackage (f ∷ files) name fd e =
    elim (Bool-cases (bytes_eq f.package_name name)) [
      | inl b ↦
          let same : f ≡ fd = ground (arith) in
          subst (λ x. HasPackage x name (f ∷ files)) same
            (here ((bytes_eq_iff f.package_name name).0 b))
      | inr b ↦ there (lookup_file_descriptor-HasPackage files name fd (ground arith))
    ]

-- The first `k` names are those of the file's package, and `n` is the most names that a package may have.
pub record Package (files : List File) (names : List Bytes) (n k : ℕ) (fd : File) : Type 0 where
  pub fits : k ≤ n
  pub has : HasPackage fd (join (codes ".") (take k names)) files
  pub longest :
      (j : ℕ)
      → k < j
      → j ≤ n
      → lookup_file_descriptor files (join (codes ".") (take j names)) ≡ none

found_or-Package :
    (files : List File) (names : List Bytes) (n k : ℕ) (r : Run (ℕ × File)) (o : Option File)
    (m : ℕ) (fd : File)
    → k ≤ n
    → ((f : File) → o ≡ some f → HasPackage f (join (codes ".") (take k names)) files)
    → found_or k r o ≡ done (m, fd)
    → ((j : ℕ)
        → k < j
        → j ≤ n
        → lookup_file_descriptor files (join (codes ".") (take j names)) ≡ none)
    → (o ≡ none → r ≡ done (m, fd) → Package files names n m fd)
    → Package files names n m fd
found_or-Package files names n k r none m fd le h e longest q = q refl e
found_or-Package files names n k r (some f) m fd le h e longest q =
    let km : k ≡ m = cc in
    let ff : f ≡ fd = cc in
    subst (λ x. Package files names n x fd) km
      (subst (λ x. Package files names n k x) ff
        (record { fits = le; has = h f refl; longest = longest }))

equal : {a b : ℕ} → (a == b) ≡ true → a ≡ b
equal e = ground arith

module _ (files : List File) (names : List Bytes) (n : ℕ) where
  -- No file has more than the first `k` names as its package.
  abbrev NoLonger : ℕ → Type 0
  NoLonger k =
      (j : ℕ)
      → k < j
      → j ≤ n
      → lookup_file_descriptor files (join (codes ".") (take j names)) ≡ none

  shorter :
      (k : ℕ)
      → lookup_file_descriptor files (join (codes ".") (take (suc k) names)) ≡ none
      → NoLonger (suc k)
      → NoLonger k
  shorter k e longest j less le = elim (Bool-cases (suc k == j)) [
    | inl same ↦
        ap (λ i. lookup_file_descriptor files (join (codes ".") (take i names))) (sym (equal same))
        ∙ e
    | inr other ↦ longest j (ground arith) le
  ]

  lookup_package-Package :
      (k m : ℕ) (fd : File)
      → k ≤ n
      → NoLonger k
      → lookup_package files names k ≡ done (m, fd)
      → Package files names n m fd
  unfolding lookup_package join
  lookup_package-Package zero m fd le longest e =
      found_or-Package files names n 0 panicked (lookup_file_descriptor files []) m fd le
        (λ f. lookup_file_descriptor-HasPackage files [] f) e longest (λ none r. cc)
  lookup_package-Package (suc zero) m fd le longest e =
      found_or-Package files names n 1 fatal _ m fd le
        (λ f. lookup_file_descriptor-HasPackage files _ f) e longest (λ none r. cc)
  lookup_package-Package (suc (suc k)) m fd le longest e =
      found_or-Package files names n (suc (suc k)) _ _ m fd le
        (λ f. lookup_file_descriptor-HasPackage files _ f) e longest
        (λ none r.
          lookup_package-Package (suc k) m fd (omega arith) (shorter (suc k) none longest) r)

bind_done :
    {A B : Type 0} (r : Run A) (f : A → Run B) (b : B)
    → (r >>= f) ≡ done b
    → (a : A) × (r ≡ done a) × (f a ≡ done b)
bind_done (done a) f b e = (a, refl, e)
bind_done fatal f b e = cc
bind_done panicked f b e = cc

-- The type is below a package: `names` are its names, of which the first `k`, one fewer than all at most, are the
-- package of the file, that has the most names of the packages of the files; and the others lead to the type in that file.
pub record Resolved (files : List File) (name : Bytes) (fd : File) (d : Descriptor) : Type 0 where
  pub names : List Bytes
  pub k : ℕ
  pub split : split_type_path name ≡ done names
  pub package_of : Package files names (length names - 1) k fd
  pub reaches : Reaches d fd.message_type (drop k names)

find_path-Reaches :
    (f fd : File) (names : List Bytes) (d : Descriptor)
    → find_path f names ≡ done (fd, d)
    → (f ≡ fd) × Reaches d fd.message_type names
find_path-Reaches f fd [] d e = cc
find_path-Reaches f fd (name ∷ tokens) d e =
    let (c, found, same) =
      bind_done (find_nested (find_type f.message_type name) tokens) _ (fd, d) e in
    let ff : f ≡ fd = cc in
    let cd : c ≡ d = cc in
    (
      ff,
      subst (λ x. Reaches x fd.message_type (name ∷ tokens)) cd
          (subst (λ x. Reaches c x.message_type (name ∷ tokens)) ff
            (find_nested-Reaches f.message_type name (find_type f.message_type name) tokens c
              (λ t. find_type-Member f.message_type name t) found)),
    )

-- What lookupMessageType returns is a type of the name: the names of the type split into those of
-- the package of a file of the request, the longest such package of fewer names than the type has,
-- and those that lead to the type in that file.
pub lookup_message_type-Resolved :
    (files : List File) (name : Bytes) (fd : File) (d : Descriptor)
    → lookup_message_type files name ≡ done (fd, d)
    → Resolved files name fd d
unfolding lookup_message_type
lookup_message_type-Resolved files name fd d e =
    let (names, split, e2) = bind_done (split_type_path name) _ (fd, d) e in
    let (found, package_found, e3) =
      bind_done (lookup_package files names (length names - 1)) _ (fd, d) e2 in
    let (same, reaches) = find_path-Reaches found.1 fd (drop found.0 names) d e3 in
    record {
      names = names;
      k = found.0;
      split = split;
      package_of =
          subst (λ x. Package files names (length names - 1) found.0 x) same
            (lookup_package-Package files names (length names - 1) (length names - 1) found.0
              found.1 (omega arith) (λ j less le. absurd (omega arith)) package_found);
      reaches = reaches;
    }
