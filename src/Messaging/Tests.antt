-- ===== src/Messaging/Tests.antt =====
-- A mailbox of one message, two replies to it, and the theorems there.
use solodesk.Prelude.{ℕ, ◌≤◌, none, List, [], ◌∷◌, refl, arith, count}
use solodesk.Messaging.{zalo, incoming, Message, InboundMessageInput, Mailbox, record_inbound}
use solodesk.Messaging.Inbound.{Delivered, Closed, record_inbound-Delivered}
use solodesk.Messaging.Replies.{Call}
use solodesk.Messaging.Replies.Statements.{has_key}
use solodesk.Messaging.Replies.Interleaving.{
  Happening, calls, goes_on, arrives, run, AnsweredOnce, run-AnsweredOnce,
}

abbrev question : Message
question = record {
  id = 1;
  tenant = 7;
  channel = zalo;
  direction = incoming;
  customer_name = 20 ∷ [];
  content = 21 ∷ [];
  source_event = 22;
  reply = none;
  replied_at = none;
  occurred_at = 100;
  created_at = 101;
}

abbrev mailbox : Mailbox
mailbox = question ∷ []

abbrev input : InboundMessageInput
input = record {
  channel = zalo;
  customer_name = 30 ∷ [];
  content = 31 ∷ [];
  source_event = 32;
  occurred_at = 200;
}

record_inbound-Delivered_example :
    Delivered 7 2 201 input mailbox (record_inbound 7 2 201 7 input mailbox)
    × Closed 7 2 201 input mailbox (record_inbound 7 2 201 7 input mailbox).1
record_inbound-Delivered_example = record_inbound-Delivered 7 2 201 input mailbox refl

abbrev early : Call
early = record { id = 1; tenant = 7; content = 50; now = 300 }

abbrev late : Call
late = record early { content = 60; now = 301 }

-- Both read before either writes.
abbrev race : List Happening
race =
    calls early
    ∷ calls late
    ∷ goes_on 0
    ∷ goes_on 1
    ∷ arrives 2 302 7 input
    ∷ goes_on 0
    ∷ goes_on 1
    ∷ []

one_key : (id : ℕ) → count (has_key id) mailbox ≤ 1
one_key id = ground arith

run-AnsweredOnce_example : AnsweredOnce (run race (record { turns = []; mailbox = mailbox }))
run-AnsweredOnce_example = run-AnsweredOnce mailbox one_key race
