-- ===== src/Go/Result.antt =====
-- What a call of the SDK comes to. `err` is a nil result, with the message that was logged before
-- the return, if one was; `panic` is a run-time panic of Go.
use deepflow_wasm_go_sdk.Prelude.{◌≡◌, ◌≢◌, refl, Bool, true, false, Option, if◌then◌else◌, subst}
use deepflow_wasm_go_sdk.Log.{Message}

pub data Result {ℓ} (A : Type ℓ) : Type ℓ where
  ok : A → Result A
  err : Option Message → Result A
  panic : Result A

infixl 5 ◌>>=◌ ◌>>◌
abbrev pub ◌>>=◌ {ℓ κ} : {A : Type ℓ} {B : Type κ} → Result A → (A → Result B) → Result B
ok a >>= f = f a
err m >>= f = err m
panic >>= f = panic

abbrev pub ◌>>◌ {ℓ} : {B : Type ℓ} → Result (Unit {0}) → Result B → Result B
m >> k = m >>= λ _. k

-- `if !b { log m; return nil }`
abbrev pub guard : Bool → Option Message → Result (Unit {0})
guard true m = ok tt
guard false m = err m

-- No panic, and `P` holds of the value if there is one.
pub data Ensures {ℓ κ} {A : Type ℓ} (P : A → Type κ) : Result A → Type (ℓ ⊔ κ) where
  holds : {a : A} → P a → Ensures P (ok a)
  rejected : {m : Option Message} → Ensures P (err m)

module _ {ℓ κ} {A : Type ℓ} {P : A → Type κ} where
  pub Ensures-ok : {r : Result A} {a : A} → Ensures P r → r ≡ ok a → P a
  Ensures-ok (Ensures.holds h) e = subst P (cc) h
  Ensures-ok rejected e = cc

  pub Ensures-panic : {r : Result A} → Ensures P r → r ≢ panic
  Ensures-panic (holds h) = cc
  Ensures-panic rejected = cc

  pub Ensures-bind {ℓ' κ'} :
      {B : Type ℓ'} {Q : B → Type κ'} {r : Result A} {f : A → Result B}
      → Ensures P r
      → ((a : A) → P a → Ensures Q (f a))
      → Ensures Q (r >>= f)
  Ensures-bind (holds {a} h) k = k a h
  Ensures-bind rejected k = rejected

pub Ensures-map {ℓ κ κ'} :
    {A : Type ℓ} {P : A → Type κ} {Q : A → Type κ'} {r : Result A}
    → Ensures P r
    → ((a : A) → P a → Q a)
    → Ensures Q r
Ensures-map (holds {a} h) k = holds (k a h)
Ensures-map rejected k = rejected

pub Ensures-guard {ℓ κ} :
    {A : Type ℓ} {P : A → Type κ} (b : Bool) (m : Option Message) {r : Result A}
    → (b ≡ true → Ensures P r)
    → Ensures P (guard b m >> r)
Ensures-guard true m k = k refl
Ensures-guard false m k = rejected

pub Ensures-if {ℓ κ} :
    {A : Type ℓ} {P : A → Type κ} (b : Bool) {r s : Result A}
    → (b ≡ true → Ensures P r)
    → (b ≡ false → Ensures P s)
    → Ensures P (if b then r else s)
Ensures-if true k l = k refl
Ensures-if false k l = l refl

-- `P` holds of the value if there is one; a panic is allowed.
pub data OnOk {ℓ κ} {A : Type ℓ} (P : A → Type κ) : Result A → Type (ℓ ⊔ κ) where
  holds : {a : A} → P a → OnOk P (ok a)
  rejected : {m : Option Message} → OnOk P (err m)
  panicked : OnOk P panic

module _ {ℓ κ} {A : Type ℓ} {P : A → Type κ} where
  pub OnOk-ok : {r : Result A} {a : A} → OnOk P r → r ≡ ok a → P a
  OnOk-ok (OnOk.holds h) e = subst P (cc) h
  OnOk-ok OnOk.rejected e = cc
  OnOk-ok panicked e = cc

  pub OnOk-bind {ℓ' κ'} :
      {B : Type ℓ'} {Q : B → Type κ'} {r : Result A} {f : A → Result B}
      → Ensures P r
      → ((a : A) → P a → OnOk Q (f a))
      → OnOk Q (r >>= f)
  OnOk-bind (Ensures.holds {a} h) k = k a h
  OnOk-bind Ensures.rejected k = OnOk.rejected

pub OnOk-then {ℓ κ ℓ' κ'} :
    {A : Type ℓ} {P : A → Type κ} {B : Type ℓ'} {Q : B → Type κ'} {r : Result A} {f : A → Result B}
    → OnOk P r
    → ((a : A) → P a → OnOk Q (f a))
    → OnOk Q (r >>= f)
OnOk-then (OnOk.holds {a} h) k = k a h
OnOk-then OnOk.rejected k = OnOk.rejected
OnOk-then panicked k = panicked

pub OnOk-guard {ℓ κ} :
    {A : Type ℓ} {P : A → Type κ} (b : Bool) (m : Option Message) {r : Result A}
    → (b ≡ true → OnOk P r)
    → OnOk P (guard b m >> r)
OnOk-guard true m k = k refl
OnOk-guard false m k = OnOk.rejected
