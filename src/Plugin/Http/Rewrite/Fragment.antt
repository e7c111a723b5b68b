-- ===== src/Plugin/Http/Rewrite/Fragment.antt =====
-- A body that is cut short behind its OPT_STATUS, against a whole one.
use deepflow_wasm_go_sdk.Prelude.{ℕ, ◌≡◌, ◌≢◌, refl, some, none, [], ◌∷◌, ◌++◌}
use deepflow_wasm_go_sdk.Prelude.Int.{ℤ}
use deepflow_wasm_go_sdk.Prelude.Text.{codes}
use deepflow_wasm_go_sdk.Go.Slices.{Bytes}
use deepflow_wasm_go_sdk.Go.Strings.{Without, cut_first}
use deepflow_wasm_go_sdk.Host.{L7ProtocolInfo}
use deepflow_wasm_go_sdk.Plugin.Http.{missing, text, Libraries}
use deepflow_wasm_go_sdk.Plugin.Http.Rewrite.{body_start, rewritten, on_field, on_body}

-- An info without the result of its response.
abbrev pub without_result : L7ProtocolInfo → L7ProtocolInfo
without_result info = record info {
  resp = elim info.resp [ none ↦ none | some r ↦ some (record r { result = [] }) ];
}

rewritten-without_result :
    (code : ℤ) (body body' s : Bytes)
    → without_result (rewritten code body s) ≡ without_result (rewritten code body' s)
unfolding rewritten
rewritten-without_result code body body' s = refl

fragment_answer :
    (libraries : Libraries) (code : ℤ) (b : ℕ) (s rest : Bytes)
    → Without 34 (b ∷ s)
    → libraries.json_field (body_start ++ ((b ∷ s) ++ (34 ∷ rest))) (codes "OPT_STATUS") ≡ missing
    → on_body libraries code (body_start ++ ((b ∷ s) ++ (34 ∷ rest)))
      ≡ rewritten code (body_start ++ ((b ∷ s) ++ (34 ∷ rest))) (b ∷ s)
unfolding on_body on_field
fragment_answer libraries code b s rest h e = rw (e, cut_first 34 (b ∷ s) rest h)

whole_answer :
    (libraries : Libraries) (code : ℤ) (b : ℕ) (s whole : Bytes)
    → whole ≢ []
    → libraries.json_field whole (codes "OPT_STATUS") ≡ text (b ∷ s)
    → on_body libraries code whole ≡ rewritten code whole (b ∷ s)
unfolding on_body on_field
whole_answer libraries code b s [] nb e = absurd (nb refl)
whole_answer libraries code b s (x ∷ xs) nb e = rw e

-- A fragment of a body, of which OPT_STATUS cannot be read as JSON, and which starts with
-- {"OPT_STATUS":", the bytes `b ∷ s`, which have no quotation mark among them, and a quotation mark,
-- is answered as any whole body whose OPT_STATUS is `b ∷ s`, but for the result.
pub on_body_fragment :
    (libraries : Libraries) (code : ℤ) (b : ℕ) (s rest whole : Bytes)
    → Without 34 (b ∷ s)
    → libraries.json_field (body_start ++ ((b ∷ s) ++ (34 ∷ rest))) (codes "OPT_STATUS") ≡ missing
    → whole ≢ []
    → libraries.json_field whole (codes "OPT_STATUS") ≡ text (b ∷ s)
    → without_result (on_body libraries code (body_start ++ ((b ∷ s) ++ (34 ∷ rest))))
      ≡ without_result (on_body libraries code whole)
on_body_fragment libraries code b s rest whole h e nb f =
    rw (fragment_answer libraries code b s rest h e, whole_answer libraries code b s whole nb f)
      (rewritten-without_result code _ whole (b ∷ s))
