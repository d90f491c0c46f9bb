-- ===== src/Transport/Session/Resume.antt =====
-- When a session that ends sends the resume.
use b.Shared.{
  arith, if◌then◌else◌, ◌↔◌, not, ℕ, zero, suc, ◌≡◌, refl, ap, ◌∙◌, sym, Bool, true, false, List,
  [], ◌∷◌, ◌⊎◌, inl, inr, ok, err, Result, Error, disconnected, timeout,
}
use b.Protocol.Framing.{Framing, plain, wrapped, length_byte, request}
use b.Protocol.Wire.{build_input_stream}
use b.Transport.Commands.{and_then}
use b.Transport.Session.{
  pause_settle, drain_max_reports, Node, OpenSession, readable, on_node, send_recv, write_wire,
  write_packet, drain, pause, first_reply, drop_session, send_last, inspect_err, is_not_wrapped,
  last_result,
}
use b.Transport.Session.Keeps.{
  Keeps, and_then-Keeps, readable-Keeps, write_wire-Keeps, send_recv-Keeps,
}

inspect_err-err :
    {S A : Type 0} (f : S → S) (r : Result A × S) {e : Error} {s : S}
    → inspect_err f r ≡ (err e, s)
    → s ≡ f r.1
inspect_err-err f (ok a, s) h = absurd cc
inspect_err-err f (err x, s) h = ap (λ t. t.1) (sym h)

drop-paused :
    {W : Type 0} (node : Node W) (self : OpenSession W)
    → self.paused ≡ true
    → drop_session node self
      ≡ (node.write_all (request self.framing (build_input_stream true)) self.world).1
unfolding drop_session write_packet write_wire
drop-paused node self h = rw h

drop-running :
    {W : Type 0} (node : Node W) (self : OpenSession W)
    → self.paused ≡ false
    → drop_session node self ≡ self.world
unfolding drop_session
drop-running node self h = rw h

-- When the first packet after the pause fails, a session on a wrapped id ends without another
-- write: not even the resume goes out. On any other framing the resume goes out as the last write.
pub first_reply-drop :
    {W : Type 0} (node : Node W) (packet : List ℕ) (self s' : OpenSession W) (e : Error)
    → first_reply node packet self ≡ (err e, s')
    → (self.framing ≡ wrapped → drop_session node s' ≡ s'.world)
      × ((self.framing ≡ plain) ⊎ (self.framing ≡ length_byte)
          → drop_session node s'
            ≡ (node.write_all (request self.framing (build_input_stream true)) s'.world).1)
unfolding first_reply
first_reply-drop {W = W} node packet self s' e h =
    let (framing, paused) =
      send_recv-Keeps self.framing self.paused node packet self (refl, refl) in
    let after : s' ≡ record (send_recv node packet self).1 {
      paused = is_not_wrapped (send_recv node packet self).1.framing;
    } =
      inspect_err-err _ (send_recv node packet self) h in
    let mark : s'.paused ≡ is_not_wrapped self.framing =
      ap (λ t. t.paused) after ∙ ap is_not_wrapped framing in
    let same : s'.framing ≡ self.framing = ap (λ t. t.framing) after ∙ framing in
    (
      λ w. drop-running node s' (mark ∙ ap is_not_wrapped w),
      λ other.
          drop-paused node s' (mark ∙ not_wrapped self.framing other)
          ∙ ap (λ f. (node.write_all (request f (build_input_stream true)) s'.world).1) same,
    )
  where
    not_wrapped : (f : Framing) → (f ≡ plain) ⊎ (f ≡ length_byte) → is_not_wrapped f ≡ true
    not_wrapped f (inl q) = ap is_not_wrapped q
    not_wrapped f (inr q) = ap is_not_wrapped q

drain-Keeps :
    {W : Type 0} (f : Framing) (p : Bool) (node : Node W) (left : ℕ) (self : OpenSession W)
    → Keeps f p self
    → Keeps f p (drain node left self).1
unfolding drain
drain-Keeps f p node zero self h = h
drain-Keeps {W = W} f p node (suc left) self h =
    and_then-Keeps f p (readable node 0 self) _ (readable-Keeps f p node 0 self h)
      (λ ready s g. go ready s g (λ s k. drain-Keeps f p node left s k))
  where
    go :
        (ready : Bool) (s : OpenSession W)
        → Keeps f p s
        → ((s : OpenSession W) → Keeps f p s → Keeps f p (drain node left s).1)
        → Keeps f p
            (if not ready
              then (ok tt, s)
              else and_then (on_node s (node.read s.world)) (λ raw self. drain node left self)).1
    go false s g step = g
    go true s g step =
        and_then-Keeps f p (on_node s (node.read s.world)) _ g (λ raw s1 k. step s1 k)

-- Sends in a row on one session, whatever each gives.
abbrev pub send_all : {W : Type 0} → Node W → List (List ℕ) → OpenSession W → OpenSession W
send_all node [] self = self
send_all node (packet ∷ packets) self = send_all node packets (send_recv node packet self).1

send_all-Keeps :
    {W : Type 0} (f : Framing) (p : Bool) (node : Node W) (packets : List (List ℕ))
    (self : OpenSession W)
    → Keeps f p self
    → Keeps f p (send_all node packets self)
send_all-Keeps f p node [] self h = h
send_all-Keeps f p node (packet ∷ packets) self h =
    send_all-Keeps f p node packets (send_recv node packet self).1
      (send_recv-Keeps f p node packet self h)

pause-Keeps :
    {W : Type 0} (node : Node W) (self : OpenSession W)
    → Keeps self.framing true (pause node self).1
unfolding pause write_packet
pause-Keeps node self =
    and_then-Keeps self.framing true
      (write_wire node (request self.framing (build_input_stream false))
        (record self { paused = true }))
      _
      (write_wire-Keeps self.framing true node (request self.framing (build_input_stream false))
        (record self { paused = true }) (refl, refl))
      (λ sent s g.
        drain-Keeps self.framing true node drain_max_reports
          (record s { world = node.sleep pause_settle s.world }) g)

-- Once a session tried to pause the input, also when that failed, it is marked so; when it then
-- ends, however many sends were made on it and whatever they gave, its last write is the resume.
pub pause-drop :
    {W : Type 0} (node : Node W) (self : OpenSession W) (packets : List (List ℕ))
    → drop_session node (send_all node packets (pause node self).1)
      ≡ (node.write_all
          (request self.framing (build_input_stream true))
          (send_all node packets (pause node self).1).world).1
pause-drop node self packets =
    let (framing, paused) =
      send_all-Keeps self.framing true node packets (pause node self).1 (pause-Keeps node self) in
    drop-paused node (send_all node packets (pause node self).1) paused
    ∙ ap
        (λ f.
          (node.write_all (request f (build_input_stream true))
            (send_all node packets (pause node self).1).world).1)
        framing

last_result-cases :
    (r : Result (List ℕ))
    → (last_result r ≡ ok tt)
      ↔ (((a : List ℕ) × (r ≡ ok a)) ⊎ (r ≡ err disconnected) ⊎ (r ≡ err timeout))
last_result-cases (ok a) = (λ e. inl (a, refl), λ e. refl)
last_result-cases (err disconnected) = (λ e. inr (inl refl), λ e. refl)
last_result-cases (err timeout) = (λ e. inr (inr refl), λ e. refl)
last_result-cases (err e) = ground arith

-- The last send of a session succeeds exactly when it gets a reply, the pad goes away or stays
-- silent, and nothing is written after its packet, so not the resume either.
pub send_last-drop :
    {W : Type 0} (node : Node W) (packet : List ℕ) (self : OpenSession W)
    → (((send_last node packet self).0 ≡ ok tt) ↔ (
        ((a : List ℕ) × ((send_recv node packet (record self { paused = false })).0 ≡ ok a))
        ⊎ ((send_recv node packet (record self { paused = false })).0 ≡ err disconnected)
        ⊎ ((send_recv node packet (record self { paused = false })).0 ≡ err timeout)))
      × ((send_last node packet self).1
          ≡ (send_recv node packet (record self { paused = false })).1.world)
unfolding send_last
send_last-drop node packet self = (
  last_result-cases (send_recv node packet (record self { paused = false })).0,
  drop-running node (send_recv node packet (record self { paused = false })).1
      (send_recv-Keeps self.framing false node packet (record self { paused = false })
        (refl, refl)).1,
)
