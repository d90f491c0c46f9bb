-- ===== src/Transport/Tests/Nodes.antt =====
-- Sessions on a node that holds a clock and the reports to come: session.rs in
-- crates/controller-core/src/transport.
use b.Shared.{
  ℕ, suc, ◌+◌, ◌≡◌, ◌↔◌, ◌⊎◌, refl, Bool, true, false, List, [], ◌∷◌, replicate, none, some,
  timeout, disconnected, Result, ok, err,
}
use b.Protocol.Framing.{Framing, plain, wrapped, length_byte, request, reply}
use b.Protocol.Wire.{build_input_stream, build_query_status}
use b.Transport.Session.{
  readable, receive, Node, OpenSession, wait, send_recv, first_reply, drop_session, pause,
  send_last,
}
use b.Transport.Session.Replies.{Exchanged, send_recv-ok}
use b.Transport.Session.Resume.{first_reply-drop, send_all, pause-drop, send_last-drop}

-- The time, and what is still to be read.
abbrev World : Type 0
World = ℕ × List (List ℕ)

abbrev ready : List (List ℕ) → Bool
ready [] = false
ready (r ∷ rs) = true

abbrev next : ℕ → List (List ℕ) → Result (List ℕ) × World
next t [] = (err disconnected, (t, []))
next t (r ∷ rs) = (ok r, (t, rs))

abbrev node : Node World
node = record {
  write_all = λ wire w. (ok tt, w);
  poll = λ left w. (ok (ready w.1), (suc w.0, w.1));
  read = λ w. next w.0 w.1;
  sleep = λ ms w. (ms + w.0, w.1);
  now = λ w. w.0;
}

abbrev answer : List ℕ
answer = 0x02 ∷ 0x04 ∷ 0x04 ∷ 0x00 ∷ 0x07 ∷ replicate 59 1

abbrev session : Framing → List (List ℕ) → OpenSession World
session framing reports = record {
  world = (0, reports);
  reply_budget = 5;
  paused = true;
  framing = framing;
  last_sent = [];
  last_received = none;
}

-- a report that is no reply, then the reply
abbrev answered : OpenSession World
answered = record {
  world = (2, []);
  reply_budget = 5;
  paused = true;
  framing = plain;
  last_sent = 0x81 ∷ 0x04 ∷ 0x07 ∷ replicate 61 0;
  last_received = some answer;
}

gets_answer :
    send_recv node build_query_status (session plain ((0x30 ∷ []) ∷ answer ∷ []))
    ≡ (ok answer, answered)
unfolding send_recv wait readable receive reply build_query_status request
gets_answer = refl

send_recv-ok_example :
    (answered.paused ≡ true)
    × (answered.framing ≡ plain)
    × (answered.reply_budget ≡ 5)
    × (answered.last_sent ≡ request plain build_query_status)
    × ((raw : List ℕ) × (answered.last_received ≡ some raw)
        × (reply plain raw build_query_status ≡ some answer))
    × Exchanged node plain build_query_status answer
        (session plain ((0x30 ∷ []) ∷ answer ∷ []))
        answered
send_recv-ok_example =
    send_recv-ok node build_query_status answer (session plain ((0x30 ∷ []) ∷ answer ∷ [])) answered
      gets_answer

abbrev unanswered : OpenSession World
unanswered = record {
  world = (5, []);
  reply_budget = 5;
  paused = false;
  framing = wrapped;
  last_sent = request wrapped (0x81 ∷ 0x04 ∷ 0x07 ∷ replicate 61 0);
  last_received = none;
}

gets_none : first_reply node build_query_status (session wrapped []) ≡ (err timeout, unanswered)
unfolding first_reply wait readable build_query_status
gets_none = refl

first_reply-drop_example :
    (wrapped ≡ wrapped → drop_session node unanswered ≡ unanswered.world)
    × ((wrapped ≡ plain) ⊎ (wrapped ≡ length_byte)
        → drop_session node unanswered
          ≡ (node.write_all (request wrapped (build_input_stream true)) unanswered.world).1)
first_reply-drop_example =
    first_reply-drop node build_query_status (session wrapped []) unanswered timeout gets_none

pause-drop_example :
    drop_session node (send_all node (build_query_status ∷ []) (pause node (session plain [])).1)
    ≡ (node.write_all
        (request plain (build_input_stream true))
        (send_all node (build_query_status ∷ []) (pause node (session plain [])).1).world).1
pause-drop_example = pause-drop node (session plain []) (build_query_status ∷ [])

send_last-drop_example :
    (((send_last node build_query_status (session plain [])).0 ≡ ok tt) ↔ (
      ((a : List ℕ) × ((send_recv node build_query_status
            (record (session plain []) { paused = false })).0
          ≡ ok a))
      ⊎ ((send_recv node build_query_status (record (session plain []) { paused = false })).0
          ≡ err disconnected)
      ⊎ ((send_recv node build_query_status (record (session plain []) { paused = false })).0
          ≡ err timeout)))
    × ((send_last node build_query_status (session plain [])).1
        ≡ (send_recv node build_query_status
            (record (session plain []) { paused = false })).1.world)
send_last-drop_example = send_last-drop node build_query_status (session plain [])
