-- ===== src/Transport/Session.antt =====
-- crates/controller-core/src/transport/session.rs: one open config node, with a send that waits for
-- its reply. The node and the clock belong to the system; the log calls are left out.
pub mod Waiting
pub mod Replies
pub mod Keeps
pub mod Resume
use b.Shared.{
  ℕ, zero, suc, ◌+◌, ◌-◌, ◌==◌, if◌then◌else◌, Bool, true, false, not, List, Option, none, some,
  timeout, disconnected, Result, ok, err,
}
use b.Protocol.Framing.{Framing, wrapped, request, reply, packet_len, resize, strip_prefix}
use b.Protocol.Wire.{build_input_stream}
use b.Transport.Commands.{Call, and_then}

-- The open file and the monotonic clock, on a state `W` of the world. A read gives the bytes it
-- put in the buffer; errors are those of `io_error` and `errno_error`.
pub record Node (W : Type 0) : Type 0 where
  pub write_all : List ℕ → W → Result (Unit {0}) × W
  pub poll : ℕ → W → Result Bool × W
  pub read : W → Result (List ℕ) × W
  pub sleep : ℕ → W → W
  pub now : W → ℕ

-- The fields that an open session changes or that its sends read.
pub record OpenSession (W : Type 0) : Type 0 where
  pub world : W
  pub reply_budget : ℕ
  pub paused : Bool
  pub framing : Framing
  pub last_sent : List ℕ
  pub last_received : Option (List ℕ)

-- 500 ms, in nanoseconds
abbrev pub pause_settle : ℕ
pause_settle = 500000000

abbrev pub drain_max_reports : ℕ
drain_max_reports = 512

-- A call on the node inside a session.
abbrev pub on_node : {W A : Type 0} → OpenSession W → Result A × W → Result A × OpenSession W
on_node self (r, w) = (r, record self { world = w })

unfoldable pub write_wire : {W : Type 0} → Node W → List ℕ → Call (OpenSession W) (Unit {0})
write_wire node wire self =
    on_node (record self { last_sent = wire }) (node.write_all wire self.world)

unfoldable pub write_packet : {W : Type 0} → Node W → List ℕ → Call (OpenSession W) (Unit {0})
unfolding write_wire
write_packet node packet self = write_wire node (request self.framing packet) self

unfoldable pub readable : {W : Type 0} → Node W → ℕ → Call (OpenSession W) Bool
readable node left self = on_node self (node.poll left self.world)

-- What a read left behind: the report, kept as the last one received.
unfoldable pub receive : {W : Type 0} → Node W → Call (OpenSession W) (List ℕ)
receive node self =
    and_then (on_node self (node.read self.world))
      (λ raw self. (ok raw, record self { last_received = some raw }))

-- The loop of `exchange`, which counts the reports it skips. Its fuel stands for the passes; the
-- budget in nanoseconds is more than it takes.
unfoldable pub wait :
    {W : Type 0}
    → Node W
    → (List ℕ → Option (List ℕ))
    → ℕ
    → ℕ
    → ℕ
    → Call (OpenSession W) (List ℕ × ℕ)
wait node is_reply deadline zero skipped self = (err timeout, self)
wait node is_reply deadline (suc fuel) skipped self =
    if deadline - node.now self.world == 0
    then (err timeout, self)
    else and_then (readable node (deadline - node.now self.world) self) (λ ready self.
      if not ready
      then wait node is_reply deadline fuel skipped self
      else and_then (receive node self) (λ raw self. elim (is_reply raw) [
        | some answer ↦ (ok (answer, skipped), self)
        | none ↦ wait node is_reply deadline fuel (suc skipped) self
      ]))

unfoldable pub exchange :
    {W : Type 0} → Node W → List ℕ → (List ℕ → Option (List ℕ)) → Call (OpenSession W) (List ℕ × ℕ)
unfolding write_wire
exchange node wire is_reply self = and_then (write_wire node wire self) (λ sent self.
    wait node is_reply (node.now self.world + self.reply_budget) (suc self.reply_budget) 0 self)

unfoldable pub send_wire :
    {W : Type 0} → Node W → List ℕ → (List ℕ → Option (List ℕ)) → Call (OpenSession W) (List ℕ)
unfolding exchange
send_wire node wire is_reply self =
    and_then (exchange node wire is_reply (record self { last_received = none }))
      (λ answer self. (ok answer.0, self))

unfoldable pub send_recv : {W : Type 0} → Node W → List ℕ → Call (OpenSession W) (List ℕ)
unfolding send_wire
send_recv node packet self =
    send_wire node (request self.framing packet) (λ raw. reply self.framing raw packet) self

-- `RawRequest` of device.rs
pub record RawRequest : Type 0 where
  pub wire : List ℕ
  pub reply_head : List ℕ

unfoldable pub send_raw : {W : Type 0} → Node W → RawRequest → Call (OpenSession W) (List ℕ)
unfolding send_wire
send_raw node raw_request self =
    send_wire node raw_request.wire
      (λ raw. elim (strip_prefix raw_request.reply_head raw) [
        | none ↦ none
        | some rest ↦ some (resize raw packet_len)
      ])
      self

-- Up to `left` queued reports are read and dropped.
unfoldable pub drain : {W : Type 0} → Node W → ℕ → Call (OpenSession W) (Unit {0})
drain node zero self = (ok tt, self)
drain node (suc left) self = and_then (readable node 0 self) (λ ready self.
    if not ready
    then (ok tt, self)
    else and_then (on_node self (node.read self.world)) (λ raw self. drain node left self))

unfoldable pub pause : {W : Type 0} → Node W → Call (OpenSession W) (Unit {0})
unfolding write_packet drain
pause node self =
    and_then (write_packet node (build_input_stream false) (record self { paused = true }))
      (λ sent self.
        drain node drain_max_reports (record self { world = node.sleep pause_settle self.world }))

-- `self.framing != Framing::Wrapped`
abbrev pub is_not_wrapped : Framing → Bool
is_not_wrapped wrapped = false
is_not_wrapped _ = true

abbrev pub inspect_err : {S A : Type 0} → (S → S) → Result A × S → Result A × S
inspect_err f (ok a, s) = (ok a, s)
inspect_err f (err e, s) = (err e, f s)

unfoldable pub first_reply : {W : Type 0} → Node W → List ℕ → Call (OpenSession W) (List ℕ)
unfolding send_recv
first_reply node packet self =
    inspect_err (λ self. record self { paused = is_not_wrapped self.framing })
      (send_recv node packet self)

-- `Drop`: the resume, best effort. What is left is the world.
unfoldable pub drop_session : {W : Type 0} → Node W → OpenSession W → W
unfolding write_packet
drop_session node self =
    if self.paused then (write_packet node (build_input_stream true) self).1.world else self.world

abbrev pub last_result : Result (List ℕ) → Result (Unit {0})
last_result (ok answer) = ok tt
last_result (err disconnected) = ok tt
last_result (err timeout) = ok tt
last_result (err e) = err e

-- The session is gone after it: what is left is the world.
unfoldable pub send_last : {W : Type 0} → Node W → List ℕ → OpenSession W → Result (Unit {0}) × W
unfolding send_recv drop_session
send_last node packet self =
    let (r, self) = send_recv node packet (record self { paused = false }) in
    (last_result r, drop_session node self)
