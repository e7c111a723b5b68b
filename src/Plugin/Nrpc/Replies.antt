-- ===== src/Plugin/Nrpc/Replies.antt =====
-- A reply is resolved to the function of its request, whatever comes between the two.
use deepflow_wasm_go_sdk.Prelude.{
  ◌≡◌, ◌≢◌, refl, false, Bool-cases, inl, inr, ◌∙◌, Option, some, List, [], ◌∷◌, All,
}
use deepflow_wasm_go_sdk.Prelude.Text.{bytes_eq, bytes_eq_iff}
use deepflow_wasm_go_sdk.Go.Slices.{Bytes}
use deepflow_wasm_go_sdk.Agent.{Vm, pure, resume, ◌>>=◌}
use deepflow_wasm_go_sdk.Pb.Messages.{NatsMessage}
use deepflow_wasm_go_sdk.Plugin.{one_info}
use deepflow_wasm_go_sdk.Plugin.Nrpc.{
  Kv, lookup, assign, Json, call_info, on_nats_message, on_reply_to,
}

module _ {H : Type 0} (json : Json) where
  -- The messages of a list, one after the other; their actions are left aside.
  unfoldable pub run : List NatsMessage → Vm (H × Kv) (Unit {0})
  run [] = pure tt
  run (m ∷ ms) = on_nats_message json m >>= λ _. run ms

lookup-assign : (key v : Bytes) (kv : Kv) → lookup (assign key v kv) key ≡ some v
unfolding lookup
lookup-assign key v kv = rw ((bytes_eq_iff key key).1 refl)

lookup-assign_other :
    (key other v : Bytes) (kv : Kv) → other ≢ key → lookup (assign other v kv) key ≡ lookup kv key
unfolding lookup
lookup-assign_other key other v kv h = elim (Bool-cases (bytes_eq other key)) [
  | inl e ↦ absurd (h ((bytes_eq_iff other key).0 e))
  | inr e ↦ rw e
]

module _ {H : Type 0} (json : Json) (call_id function : Bytes) where
  -- Where the messages come to: the agent as it was, and the call still known.
  record Known (h : H) (r : Option ((Unit {0}) × (H × Kv))) : Type 0 where
    kv' : Kv
    ends : r ≡ some (tt, (h, kv'))
    known : lookup kv' call_id ≡ some function

  step-Known :
      (m : NatsMessage) (reply_to : Bytes) (rest : Vm (H × Kv) (Unit {0})) (h : H) (kv : Kv)
      → ((kv : Kv) → lookup kv call_id ≡ some function → Known h (rest (h, kv)))
      → reply_to ≢ call_id
      → lookup kv call_id ≡ some function
      → Known h (resume (λ a. rest) (on_reply_to json m reply_to (h, kv)))
  step-Known m [] rest h kv later differs known = later kv known
  step-Known m (b ∷ bs) rest h kv later differs known =
      later (assign (b ∷ bs) m.subject kv)
        (lookup-assign_other call_id (b ∷ bs) m.subject kv differs ∙ known)

  run-Known :
      (ms : List NatsMessage) (h : H) (kv : Kv)
      → All (λ m. m.reply_to ≢ call_id) ms
      → lookup kv call_id ≡ some function
      → Known h (run json ms (h, kv))
  unfolding run on_nats_message
  run-Known [] h kv others known = record { kv' = kv; ends = refl; known = known }
  run-Known (m ∷ ms) h kv (other, others) known =
      let later : (kv : Kv) → lookup kv call_id ≡ some function → Known h (run json ms (h, kv)) =
        λ kv known. run-Known ms h kv others known in
      step-Known m m.reply_to (run json ms) h kv later other known

  reply_known :
      (reply : NatsMessage) (h : H) (kv : Kv)
      → reply.reply_to ≡ []
      → reply.subject ≡ call_id
      → lookup kv call_id ≡ some function
      → on_nats_message json reply (h, kv)
        ≡ some (some (one_info (call_info json function call_id false reply.payload)), (h, kv))
  unfolding on_nats_message
  reply_known reply h kv e f known = rw (e, f, known)

-- A request for a reply, then any messages that ask for no reply on the same subject, then a message
-- on that subject that asks for none: the messages are all answered, the agent is left as it is, and
-- the last one gives the result of a response to the function of the request.
pub reply_resolved :
    {H : Type 0} (json : Json) (request reply : NatsMessage) (ms : List NatsMessage) (h : H)
    (kv : Kv)
    → request.reply_to ≢ []
    → All (λ m. m.reply_to ≢ request.reply_to) ms
    → reply.reply_to ≡ []
    → reply.subject ≡ request.reply_to
    → (kv' : Kv) × (run json (request ∷ ms) (h, kv) ≡ some (tt, (h, kv')))
      × (on_nats_message json reply (h, kv')
          ≡ some (
            some (one_info (call_info json request.subject request.reply_to false reply.payload)),
            (h, kv'),
          ))
unfolding run on_nats_message
reply_resolved {H} json request reply ms h kv asks others none_asked same =
    step request.reply_to asks others same
  where
    step :
        (reply_to : Bytes)
        → reply_to ≢ []
        → All (λ m. m.reply_to ≢ reply_to) ms
        → reply.subject ≡ reply_to
        → (kv' : Kv) × (resume (λ a. run json ms) (on_reply_to json request reply_to (h, kv))
            ≡ some (tt, (h, kv')))
          × (on_nats_message json reply (h, kv')
              ≡ some (
                some (one_info (call_info json request.subject reply_to false reply.payload)),
                (h, kv'),
              ))
    step [] a o s = absurd (a refl)
    step (b ∷ bs) a o s =
        let k =
          run-Known json (b ∷ bs) request.subject ms h (assign (b ∷ bs) request.subject kv) o
            (lookup-assign (b ∷ bs) request.subject kv) in
        (
          k.kv',
          k.ends,
          reply_known json (b ∷ bs) request.subject reply h k.kv' none_asked s k.known,
        )
