-- ===== src/Plugin/Http/Rewrite/Found.antt =====
-- The OPT_STATUS in a body.
use deepflow_wasm_go_sdk.Prelude.{
  ◌≡◌, ◌≢◌, ◌⊎◌, inl, inr, refl, ap, sym, ◌∙◌, Bool-cases, Option, some, none, [], ◌∷◌, ◌++◌,
  if◌then◌else◌, length, drop,
}
use deepflow_wasm_go_sdk.Prelude.Text.{codes, has_prefix, has_prefix→append}
use deepflow_wasm_go_sdk.Go.Slices.{Bytes}
use deepflow_wasm_go_sdk.Go.Strings.{Without, cut_first, cut-Without}
use deepflow_wasm_go_sdk.Plugin.Http.{Field, missing, other, text, Libraries}
use deepflow_wasm_go_sdk.Plugin.Http.Rewrite.{body_start, scan}

-- No OPT_STATUS, or the empty one.
abbrev pub Unread : Field → Type 0
Unread f = (f ≡ missing) ⊎ (f ≡ text [])

-- The OPT_STATUS that is found in a body, by the field of the JSON text and, where this is missing or
-- empty, by the start of the body.
pub data Found (libraries : Libraries) : Bytes → Option Bytes → Type 0 where
  no_body : Found libraries [] none
  no_text :
      {body : Bytes}
      → body ≢ []
      → libraries.json_field body (codes "OPT_STATUS") ≡ other
      → Found libraries body none
  field :
      {body s : Bytes}
      → body ≢ []
      → s ≢ []
      → libraries.json_field body (codes "OPT_STATUS") ≡ text s
      → Found libraries body (some s)
  no_start :
      {body : Bytes}
      → body ≢ []
      → Unread (libraries.json_field body (codes "OPT_STATUS"))
      → ((rest : Bytes) → body ≢ body_start ++ rest)
      → Found libraries body none
  closed :
      {body s : Bytes} (rest : Bytes)
      → Unread (libraries.json_field body (codes "OPT_STATUS"))
      → body ≡ body_start ++ (s ++ (34 ∷ rest))
      → Without 34 s
      → Found libraries body (some s)
  cut_short :
      {body : Bytes} (s : Bytes)
      → Unread (libraries.json_field body (codes "OPT_STATUS"))
      → body ≡ body_start ++ s
      → Without 34 s
      → Found libraries body (some [])

module _ (libraries : Libraries) where
  open libraries use {json_field}

  at_start : Bytes → Option Bytes
  at_start body =
      if has_prefix body body_start then some (scan (drop (length body_start) body)) else none

  of_field : Bytes → Field → Option Bytes
  of_field body other = none
  of_field body missing = at_start body
  of_field body (text []) = at_start body
  of_field body (text (b ∷ bs)) = some (b ∷ bs)

  of_body : Bytes → Option Bytes
  of_body [] = none
  of_body (b ∷ bs) = of_field (b ∷ bs) (json_field (b ∷ bs) (codes "OPT_STATUS"))

  of_body-field :
      (body : Bytes)
      → body ≢ []
      → of_body body ≡ of_field body (json_field body (codes "OPT_STATUS"))
  unfolding of_body
  of_body-field [] nb = absurd (nb refl)
  of_body-field (b ∷ bs) nb = refl

  of_body-Unread :
      (body : Bytes)
      → body ≢ []
      → Unread (json_field body (codes "OPT_STATUS"))
      → of_body body ≡ at_start body
  unfolding of_field
  of_body-Unread body nb (inl e) = of_body-field body nb ∙ rw e refl
  of_body-Unread body nb (inr e) = of_body-field body nb ∙ rw e refl

  at_start-append : (rest : Bytes) → at_start (body_start ++ rest) ≡ some (scan rest)
  unfolding at_start
  at_start-append rest = refl

  started-ne-nil : (body rest : Bytes) → body ≡ body_start ++ rest → body ≢ []
  started-ne-nil body rest e n = cc

  of_field-text : (body s : Bytes) → s ≢ [] → of_field body (text s) ≡ some s
  unfolding of_field
  of_field-text body [] ns = absurd (ns refl)
  of_field-text body (b ∷ bs) ns = refl

  not_started : (body : Bytes) → ((rest : Bytes) → body ≢ body_start ++ rest) → at_start body ≡ none
  unfolding at_start
  not_started body differs = elim (Bool-cases (has_prefix body body_start)) [
    | inl e ↦ absurd (differs (drop (length body_start) body) (has_prefix→append body body_start e))
    | inr e ↦ rw e refl
  ]

  Found-of_body : {body : Bytes} {s : Option Bytes} → Found libraries body s → of_body body ≡ s
  unfolding of_body of_field
  Found-of_body no_body = refl
  Found-of_body {body} (no_text nb e) = of_body-field body nb ∙ rw e refl
  Found-of_body {body} (field {s = s} nb ns e) =
      of_body-field body nb ∙ rw e (of_field-text body s ns)
  Found-of_body {body} (no_start nb u differs) = of_body-Unread body nb u ∙ not_started body differs
  Found-of_body {body} (closed {s = s} rest u e free) =
      of_body-Unread body (started-ne-nil body (s ++ (34 ∷ rest)) e) u
      ∙ (ap at_start e ∙ (at_start-append (s ++ (34 ∷ rest)) ∙ rw (cut_first 34 s rest free) refl))
  Found-of_body {body} (cut_short s u e free) =
      of_body-Unread body (started-ne-nil body s e) u
      ∙ (ap at_start e ∙ (at_start-append s ∙ rw (cut-Without 34 s free) refl))

  -- There is one OPT_STATUS at most in a body.
  pub Found-unique :
      {body : Bytes} {s s' : Option Bytes}
      → Found libraries body s
      → Found libraries body s'
      → s ≡ s'
  Found-unique f f' = sym (Found-of_body f) ∙ Found-of_body f'
