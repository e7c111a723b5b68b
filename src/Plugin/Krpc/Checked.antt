-- ===== src/Plugin/Krpc/Checked.antt =====
-- What OnCheckPayload accepts, OnParsePayload parses.
use deepflow_wasm_go_sdk.Prelude.{
  ℕ, ◌≡◌, ◌≢◌, refl, true, false, Option, none, some, Bool, Bool-cases, inl, inr, arith, length,
  ltb, ◌≤◌, ◌+◌, drop, ◌∷◌, [], ◌==◌, ◌-◌, take, le→leb, not_ltb→le, length-drop,
}
use deepflow_wasm_go_sdk.Go.Result.{Result, ok, err, panic}
use deepflow_wasm_go_sdk.Go.Slices.{Bytes, slice, slice_back}
use deepflow_wasm_go_sdk.Go.Binary.{uint16}
use deepflow_wasm_go_sdk.Host.{ParseCtx, direction_request}
use deepflow_wasm_go_sdk.Agent.{HostFunctions, pure, resume}
use deepflow_wasm_go_sdk.Agent.Payload.{get_payload, get_payload_kept}
use deepflow_wasm_go_sdk.Parser.Interface.{Check}
use deepflow_wasm_go_sdk.Plugin.{one_info, payload_or_lem}
use deepflow_wasm_go_sdk.Plugin.Krpc.{KrpcPb, KrpcInfo, fill, parse, krpc_protocol}
use deepflow_wasm_go_sdk.Plugin.Krpc.Handlers.{
  empty_krpc_info, check_payload, answer_info, request_of, info_of, on_check_payload,
  on_parse_payload,
}

fill_checked :
    (pb : KrpcPb) (k k' : KrpcInfo) (bytes : Bytes)
    → fill pb k true bytes ≡ some k'
    → fill pb k false bytes ≡ some k'
unfolding fill
fill_checked pb k k' bytes e = ground arith

-- A payload that parse accepts with check, it accepts without, and the info is the same.
pub parse_checked :
    (pb : KrpcPb) (k k' : KrpcInfo) (payload : Bytes)
    → parse pb k payload true ≡ ok (some k')
    → parse pb k payload false ≡ ok (some k')
unfolding parse
parse_checked pb k k' payload e = grind (arith, fill_checked)

uint16_there : (xs : Bytes) → 2 ≤ length xs → (n : ℕ) × (uint16 xs ≡ ok n)
unfolding uint16
uint16_there [] h = absurd (omega arith)
uint16_there (a ∷ []) h = absurd (omega arith)
uint16_there (a ∷ b ∷ xs) h = (_, refl)

slice_inside :
    (b : Bytes) (i j : ℕ) → i ≤ j → j ≤ length b → slice b i j ≡ ok (take (j - i) (drop i b))
unfolding slice
slice_inside b i j h k = rw (le→leb i j h, le→leb j (length b) k)

behind_no_panic :
    (pb : KrpcPb) (k : KrpcInfo) (payload : Bytes) (check : Bool) (n : ℕ)
    → 8 ≤ length payload
    → ltb (length payload) 8 ≡ false
    → slice payload 2 (length payload) ≡ ok (drop 2 payload)
    → uint16 (drop 2 payload) ≡ ok n
    → parse pb k payload check ≢ panic
unfolding parse
behind_no_panic pb k payload check n long e front there =
    elim (Bool-cases (ltb (length payload) (n + 8))) [
      | inl f ↦ rw (e, front, there, f, slice_back payload 8 long) (λ p. ground arith)
      | inr f ↦
          let inside =
            slice_inside payload 8 (8 + n) (omega arith)
              (omega (arith, not_ltb→le (n + 8) (length payload) f)) in
          rw (e, front, there, f, inside) (λ p. ground arith)
    ]

-- parse never panics.
pub parse_no_panic :
    (pb : KrpcPb) (k : KrpcInfo) (payload : Bytes) (check : Bool) → parse pb k payload check ≢ panic
unfolding parse
parse_no_panic pb k payload check = elim (Bool-cases (ltb (length payload) 8)) [
  | inl e ↦ rw e (λ p. cc)
  | inr e ↦
      let long = not_ltb→le 8 (length payload) e in
      let front = slice_back payload 2 (omega arith) in
      let found = uint16_there (drop 2 payload) (omega (arith, length-drop 2 payload)) in
      behind_no_panic pb k payload check found.0 long e front found.1
]

resume_pair :
    {H C A : Type 0} (ctx ctx' : C) (a : A) (h' : H) (r : Option (A × H))
    → resume {A = A} {B = C × A} (λ b. pure (ctx, b)) r ≡ some ((ctx', a), h')
    → r ≡ some (a, h')
resume_pair ctx ctx' a h' none e = cc
resume_pair ctx ctx' a h' (some (b, h)) e = cc

-- A check that says yes has parsed a request.
accepted :
    {H : Type 0} (host : HostFunctions H) (pb : KrpcPb) (payload : Bytes) (l4 : ℕ)
    (r : Result (Option KrpcInfo)) (check : Check) (h h' : H)
    → parse pb empty_krpc_info payload true ≡ r
    → check_payload host pb l4 (some payload) h ≡ some (check, h')
    → check.proto_num ≢ 0
    → (k : KrpcInfo) × (r ≡ ok (some k)) × (k.msg_type ≡ direction_request) × (h' ≡ h)
accepted host pb payload l4 (ok (some k)) check h h' e c said =
    (k, refl, ground arith, ground arith)
accepted host pb payload l4 (ok none) check h h' e c said = ground arith
accepted host pb payload l4 (err m) check h h' e c said = ground arith
accepted host pb payload l4 panic check h h' e c said = ground arith

module _ {H : Type 0} (host : HostFunctions H) (pb : KrpcPb) where
  -- OnParsePayload on a request of kRPC, from which parse gets an info: the result of this request.
  pub on_parse_payload_request :
      (ctx ctx' : ParseCtx) (k : KrpcInfo) (payload : Bytes) (h h' : H)
      → get_payload host ctx h ≡ some ((ctx', some payload), h')
      → ctx.l7 ≡ krpc_protocol
      → ctx.direction ≡ direction_request
      → parse pb empty_krpc_info payload false ≡ ok (some k)
      → on_parse_payload host pb ctx h
        ≡ some ((ctx', some (one_info (info_of k (some (request_of k)) none))), h')
  unfolding on_parse_payload answer_info
  on_parse_payload_request ctx ctx' k payload h h' p l7 d e =
      let number : (ctx.l7 == krpc_protocol) ≡ true = ground arith in
      let request : (ctx.direction == direction_request) ≡ true = ground arith in
      rw (number, payload_or_lem host ctx ctx' _ _ payload h h' p, e, request)

  -- Where OnCheckPayload says that a payload that has been read is kRPC, parse gets a request from it,
  -- and OnParsePayload, on any context with the payload, with the number of kRPC and the direction of
  -- a request, gives the result of this request and asks the agent for nothing.
  pub checked_answered :
      (ctx ctx' ctx2 : ParseCtx) (payload : Bytes) (check : Check) (h h' h2 : H)
      → ctx.payload ≡ some payload
      → on_check_payload host pb ctx h ≡ some ((ctx', check), h')
      → check.proto_num ≢ 0
      → ctx2.payload ≡ some payload
      → ctx2.l7 ≡ krpc_protocol
      → ctx2.direction ≡ direction_request
      → (k : KrpcInfo) × (parse pb empty_krpc_info payload true ≡ ok (some k))
        × (k.msg_type ≡ direction_request)
        × (on_parse_payload host pb ctx2 h2
            ≡ some ((ctx2, some (one_info (info_of k (some (request_of k)) none))), h2))
  unfolding on_check_payload
  checked_answered ctx ctx' ctx2 payload check h h' h2 p c said p2 l7 d =
      let c2 : check_payload host pb ctx.l4 (some payload) h ≡ some (check, h') =
        resume_pair ctx ctx' check h' (check_payload host pb ctx.l4 (some payload) h)
          (rw (get_payload_kept host ctx payload h p) at c) in
      let (k, ok_k, request, same) =
        accepted host pb payload ctx.l4 (parse pb empty_krpc_info payload true) check h h' refl c2
          said in
      (
        k,
        ok_k,
        request,
        on_parse_payload_request ctx2 ctx2 k payload h2 h2
            (get_payload_kept host ctx2 payload h2 p2) l7 d
            (parse_checked pb empty_krpc_info k payload ok_k),
      )
