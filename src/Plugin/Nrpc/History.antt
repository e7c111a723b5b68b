-- ===== src/Plugin/Nrpc/History.antt =====
-- example/nats/nats.go: the plugin against a history of messages in place of its map.
use deepflow_wasm_go_sdk.Prelude.{
  ℕ, true, ◌≡◌, refl, Option, none, some, List, [], ◌∷◌, if◌then◌else◌,
}
use deepflow_wasm_go_sdk.Prelude.Text.{bytes_eq}
use deepflow_wasm_go_sdk.Go.Slices.{Bytes}
use deepflow_wasm_go_sdk.Agent.{Vm, pure, resume, ◌>>=◌}
use deepflow_wasm_go_sdk.Pb.Messages.{NatsMessage}
use deepflow_wasm_go_sdk.Parser.Action.{Action}
use deepflow_wasm_go_sdk.Plugin.{one_info}
use deepflow_wasm_go_sdk.Plugin.Nrpc.{
  Kv, lookup, assign, Json, call_info, reply_action, on_nats_message, on_reply_to,
}

-- A request for a reply on the subject, or what was asked before it.
abbrev pub asked_with : Bytes → Bytes → Bytes → Option Bytes → Option Bytes
asked_with [] function subject earlier = earlier
asked_with (b ∷ reply_to) function subject earlier =
    if bytes_eq (b ∷ reply_to) subject then some function else earlier

-- The function of the latest message of a history, the latest first, that asks for a reply on the subject.
unfoldable pub asked : List NatsMessage → Bytes → Option Bytes
asked [] subject = none
asked (m ∷ past) subject =
    let earlier = asked past subject in asked_with m.reply_to m.subject subject earlier

-- The map stands for the history.
abbrev pub Tracks : Kv → List NatsMessage → Type 0
Tracks kv past = (subject : Bytes) → lookup kv subject ≡ asked past subject

pub assign-Tracks :
    (m : NatsMessage) (b : ℕ) (bs : Bytes) (kv : Kv) (past : List NatsMessage)
    → Tracks kv past
    → (subject : Bytes)
    → lookup (assign (b ∷ bs) m.subject kv) subject
      ≡ asked_with (b ∷ bs) m.subject subject (asked past subject)
unfolding lookup
assign-Tracks m b bs kv past t subject = rw (t subject)

module _ (json : Json) where
  -- A message that asks for a reply is a request to its subject, and any other is a reply to the function that was
  -- asked, if there is one.
  abbrev pub answer_with : Bytes → List NatsMessage → NatsMessage → Action
  answer_with [] past m = reply_action json m (asked past m.subject)
  answer_with (b ∷ reply_to) past m =
      one_info (call_info json m.subject (b ∷ reply_to) true m.payload)

  -- The actions for the messages of a list behind a history.
  unfoldable pub answers : List NatsMessage → List NatsMessage → List (Option Action)
  answers past [] = []
  answers past (m ∷ ms) =
      let later = answers (m ∷ past) ms in some (answer_with m.reply_to past m) ∷ later

  module _ {H : Type 0} where
    -- The plugin on the messages of a list, one after the other.
    unfoldable pub run_all : List NatsMessage → Vm (H × Kv) (List (Option Action))
    run_all [] = pure []
    run_all (m ∷ ms) = on_nats_message json m >>= λ a. run_all ms >>= λ later. pure (a ∷ later)

    record Ends (h : H) (actions : List (Option Action))
        (r : Option (List (Option Action) × (H × Kv))) : Type 0 where
      kv' : Kv
      ends : r ≡ some (actions, (h, kv'))

    step-Ends :
        (m : NatsMessage) (reply_to : Bytes) (rest : Vm (H × Kv) (List (Option Action))) (h : H)
        (kv : Kv) (past : List NatsMessage) (later : List (Option Action))
        → ((kv : Kv)
            → ((subject : Bytes)
                → lookup kv subject ≡ asked_with reply_to m.subject subject (asked past subject))
            → Ends h later (rest (h, kv)))
        → Tracks kv past
        → Ends h
            (some (answer_with reply_to past m) ∷ later)
            (resume (λ a. rest >>= λ later. pure (a ∷ later)) (on_reply_to json m reply_to (h, kv)))
    step-Ends m [] rest h kv past later q t =
        let e = q kv t in record { kv' = e.kv'; ends = rw (e.ends, t m.subject) }
    step-Ends m (b ∷ bs) rest h kv past later q t =
        let e = q (assign (b ∷ bs) m.subject kv) (assign-Tracks m b bs kv past t) in
        record { kv' = e.kv'; ends = rw e.ends }

    run_all-Ends :
        (ms past : List NatsMessage) (h : H) (kv : Kv)
        → Tracks kv past
        → Ends h (answers past ms) (run_all ms (h, kv))
    unfolding run_all answers on_nats_message asked
    run_all-Ends [] past h kv t = record { kv' = kv; ends = refl }
    run_all-Ends (m ∷ ms) past h kv t =
        let later : (kv : Kv)
            → Tracks kv (m ∷ past)
            → Ends h (answers (m ∷ past) ms) (run_all ms (h, kv)) =
          λ kv t. run_all-Ends ms (m ∷ past) h kv t in
        step-Ends m m.reply_to (run_all ms) h kv past (answers (m ∷ past) ms) later t

    -- Whatever messages come to the plugin, one after the other, from the start on: it gives the actions of the
    -- specification, which keeps the messages that came and answers a message that asks for no reply with the
    -- function of the latest one that asked for a reply on its subject; and it leaves the agent as it is.
    pub on_nats_message-refines :
        (ms : List NatsMessage) (h : H)
        → (kv : Kv) × (run_all ms (h, []) ≡ some (answers [] ms, (h, kv)))
    unfolding lookup asked
    on_nats_message-refines ms h =
        let e = run_all-Ends ms [] h [] (λ subject. refl) in (e.kv', e.ends)
