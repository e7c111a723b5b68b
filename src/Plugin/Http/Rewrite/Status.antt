-- ===== src/Plugin/Http/Rewrite/Status.antt =====
-- The OPT_STATUS that the plugin finds in a body, and what it answers with.
use deepflow_wasm_go_sdk.Prelude.{
  ℕ, ◌≡◌, ◌≢◌, ◌≤◌, ◌<◌, inl, inr, refl, ap, ◌∙◌, true, false, Bool-cases, Option, Option-cases,
  some, none, [], ◌∷◌, ◌++◌, arith, length, drop,
}
use deepflow_wasm_go_sdk.Prelude.Int.{ℤ, pos, negsuc}
use deepflow_wasm_go_sdk.Prelude.Text.{
  codes, bytes_eq, bytes_eq_iff, has_prefix, has_prefix-append, has_prefix→append,
}
use deepflow_wasm_go_sdk.Go.Slices.{Bytes}
use deepflow_wasm_go_sdk.Go.Strings.{cut, cut-none, cut-some}
use deepflow_wasm_go_sdk.Host.{
  L7ProtocolInfo, Response, resp_status_ok, resp_status_client_err, resp_status_server_err,
}
use deepflow_wasm_go_sdk.Parser.Action.{empty_info, empty_response}
use deepflow_wasm_go_sdk.Abi.Handlers.{with_status}
use deepflow_wasm_go_sdk.Plugin.{in_range, get_status}
use deepflow_wasm_go_sdk.Plugin.Http.{Field, missing, other, text, Libraries}
use deepflow_wasm_go_sdk.Plugin.Http.Rewrite.Found.{
  Unread, Found, no_body, no_text, field, no_start, closed, cut_short, Found-unique,
}
use deepflow_wasm_go_sdk.Plugin.Http.Rewrite.{
  body_start, normal_info, rewritten, scan, on_empty_status, on_field, on_body,
}

-- lo ≤ code < hi
abbrev pub InRange : ℕ → ℕ → ℤ → Type 0
InRange lo hi (pos n) = (lo ≤ n) × (n < hi)
InRange lo hi (negsuc n) = ⊥

in_range→InRange : (lo hi : ℕ) (code : ℤ) → in_range lo hi code ≡ true → InRange lo hi code
in_range→InRange lo hi (pos n) e = ground arith
in_range→InRange lo hi (negsuc n) e = cc

not_in_range→¬InRange : (lo hi : ℕ) (code : ℤ) → in_range lo hi code ≡ false → ¬ InRange lo hi code
not_in_range→¬InRange lo hi (pos n) e r = ground arith
not_in_range→¬InRange lo hi (negsuc n) e r = r

-- The status of a code.
pub data StatusOf (code : ℤ) : ℕ → Type 0 where
  is_ok : InRange 200 400 code → StatusOf code resp_status_ok
  client_err : InRange 400 500 code → StatusOf code resp_status_client_err
  server_err :
      ¬ InRange 200 400 code → ¬ InRange 400 500 code → StatusOf code resp_status_server_err

get_status-StatusOf : (code : ℤ) → StatusOf code (get_status code)
unfolding get_status
get_status-StatusOf code = elim (Bool-cases (in_range 200 400 code)) [
  | inl e ↦ rw e (is_ok (in_range→InRange 200 400 code e))
  | inr e ↦ elim (Bool-cases (in_range 400 500 code)) [
    | inl f ↦ rw (e, f) (client_err (in_range→InRange 400 500 code f))
    | inr f ↦
        rw (e, f)
          (server_err (not_in_range→¬InRange 200 400 code e) (not_in_range→¬InRange 400 500 code f))
  ]
]

get_status-500 : get_status (pos 500) ≡ resp_status_server_err
unfolding get_status
get_status-500 = refl

-- A response of this status, code and result, and the attribute op_stat if there is an OPT_STATUS.
abbrev pub with_response : ℕ → ℤ → Bytes → L7ProtocolInfo
with_response status code result = record empty_info {
  resp = some (record empty_response { status = some status; code = some code; result = result });
}

abbrev pub op_stat : Bytes → L7ProtocolInfo → L7ProtocolInfo
op_stat status info = record info { kv = record { key = codes "op_stat"; val = status } ∷ [] }

-- What a response of `code` with `body` is answered with, by the OPT_STATUS of the body.
pub data Answered (code : ℤ) (body : Bytes) : Option Bytes → L7ProtocolInfo → Type 0 where
  unchanged :
      {status : ℕ} → StatusOf code status → Answered code body none (with_response status code [])
  success :
      {status : ℕ} {s : Bytes}
      → s ≡ codes "SUCCESS"
      → StatusOf code status
      → Answered code body (some s) (op_stat s (with_response status code []))
  rewritten_to_500 :
      {s : Bytes}
      → s ≢ codes "SUCCESS"
      → InRange 200 300 code
      → Answered code body
          (some s)
          (op_stat s (with_response resp_status_server_err (pos 500) body))
  failed :
      {status : ℕ} {s : Bytes}
      → s ≢ codes "SUCCESS"
      → ¬ InRange 200 300 code
      → StatusOf code status
      → Answered code body (some s) (op_stat s (with_response status code body))

-- An answer has a response, and the status of that is its own.
pub Answered-with_status :
    (status : ℕ) {code : ℤ} {body : Bytes} {s : Option Bytes} {info : L7ProtocolInfo}
    → Answered code body s info
    → (r : Response) × (info.resp ≡ some r)
      × (record info { resp = some (with_status status r) } ≡ info)
Answered-with_status status (unchanged k) = (_, refl, refl)
Answered-with_status status (success e k) = (_, refl, refl)
Answered-with_status status (rewritten_to_500 d r) = (_, refl, refl)
Answered-with_status status (failed d r k) = (_, refl, refl)

normal-Answered : (code : ℤ) (body : Bytes) → Answered code body none (normal_info code)
normal-Answered code body = unchanged (get_status-StatusOf code)

rewritten-Answered :
    (code : ℤ) (body s : Bytes) → Answered code body (some s) (rewritten code body s)
unfolding rewritten
rewritten-Answered code body s = elim (Bool-cases (bytes_eq s (codes "SUCCESS"))) [
  | inl e ↦ rw e (success ((bytes_eq_iff s (codes "SUCCESS")).0 e) (get_status-StatusOf code))
  | inr e ↦
      let differs : s ≢ codes "SUCCESS" =
        λ same. cc (e, (bytes_eq_iff s (codes "SUCCESS")).1 same) in
      elim (Bool-cases (in_range 200 300 code)) [
        | inl f ↦
            rw (e, f, get_status-500) (rewritten_to_500 differs (in_range→InRange 200 300 code f))
        | inr f ↦
            rw (e, f)
              (failed differs (not_in_range→¬InRange 200 300 code f) (get_status-StatusOf code))
      ]
]

module _ (libraries : Libraries) (code : ℤ) where
  open libraries use {json_field}

  -- An info that answers what is found in a body.
  Outcome : Bytes → L7ProtocolInfo → Type 0
  Outcome body info = (s : Option Bytes) × Found libraries body s × Answered code body s info

  scanned :
      (body rest : Bytes)
      → Unread (json_field body (codes "OPT_STATUS"))
      → body ≡ body_start ++ rest
      → Outcome body (rewritten code body (scan rest))
  unfolding Outcome
  scanned body rest u e = elim (Option-cases (cut 34 rest)) [
    | inl n ↦
        rw n (some [], cut_short rest u e (cut-none 34 rest n), rewritten-Answered code body [])
    | inr ((s, behind), f) ↦
        let (split, free) = cut-some 34 rest s behind f in
        rw f (
          some s,
          closed behind u (e ∙ ap (λ t. body_start ++ t) split) free,
          rewritten-Answered code body s,
        )
  ]

  unread :
      (body : Bytes)
      → body ≢ []
      → Unread (json_field body (codes "OPT_STATUS"))
      → Outcome body (on_empty_status code body)
  unfolding Outcome
  unread body nb u = elim (Bool-cases (has_prefix body body_start)) [
    | inl e ↦
        rw e (scanned body (drop (length body_start) body) u (has_prefix→append body body_start e))
    | inr e ↦ rw e (
      none,
      no_start nb u (λ rest f.
          cc (e, ap (λ (t : Bytes). has_prefix t body_start) f, has_prefix-append body_start rest)),
      normal-Answered code body,
    )
  ]

  by_field :
      (body : Bytes) (f : Field)
      → body ≢ []
      → json_field body (codes "OPT_STATUS") ≡ f
      → Outcome body (on_field code body f)
  unfolding on_field Outcome
  by_field body other nb e = (none, no_text nb e, normal-Answered code body)
  by_field body missing nb e = unread body nb (inl e)
  by_field body (text []) nb e = unread body nb (inr e)
  by_field body (text (b ∷ bs)) nb e =
      (some (b ∷ bs), field nb (λ n. cc) e, rewritten-Answered code body (b ∷ bs))

  on_body-Outcome : (body : Bytes) → Outcome body (on_body libraries code body)
  unfolding on_body Outcome
  on_body-Outcome [] = (none, no_body, normal-Answered code [])
  on_body-Outcome (b ∷ bs) =
      by_field (b ∷ bs) (json_field (b ∷ bs) (codes "OPT_STATUS")) (λ n. cc) refl

  -- Whatever the body is, there is exactly one OPT_STATUS in it or none. It is that of its JSON text, and none
  -- where this is not a text; where the JSON text has none or an empty one, it is what stands between
  -- {"OPT_STATUS":" at the start of the body and the next quotation mark, empty where no mark follows, and
  -- none where the body does not start like that; an empty body has none. With none, the answer has the
  -- code of the response, the status of this code, no result and no attribute. With SUCCESS, it has this
  -- code, status and no result; with anything else, the body as its result, and 500 and the status of a
  -- server's error for a code from 200 to 299, and else the code and its status; and in both cases the
  -- attribute op_stat.
  pub on_body-Answered :
      (body : Bytes)
      → (s : Option Bytes) × Found libraries body s
        × ((s' : Option Bytes) → Found libraries body s' → s' ≡ s)
        × Answered code body s (on_body libraries code body)
  unfolding Outcome
  on_body-Answered body =
      let (s, found, answered) = on_body-Outcome body in
      (s, found, (λ s' f. Found-unique libraries f found), answered)
