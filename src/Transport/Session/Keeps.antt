-- ===== src/Transport/Session/Keeps.antt =====
-- What no send changes in a session.
use b.Shared.{
  subst, subst, ℕ, zero, suc, ◌-◌, ◌==◌, ◌≡◌, sym, Bool, true, false, List, Option, none, some, inl,
  inr, ok, err, Result, Bool-cases,
}
use b.Protocol.Framing.{Framing, request}
use b.Transport.Commands.{and_then, Call}
use b.Transport.Session.{
  Node, OpenSession, wait, readable, receive, on_node, send_recv, exchange, send_wire, write_wire,
}
use b.Transport.Session.Waiting.{on_poll, on_report, wait-early}
use b.Transport.Session.Replies.{wait-zero, wait-late}

-- The framing and the mark that decide on the resume.
abbrev pub Keeps : {W : Type 0} → Framing → Bool → OpenSession W → Type 0
Keeps framing paused self = (self.framing ≡ framing) × (self.paused ≡ paused)

pub and_then-Keeps :
    {W A B : Type 0} (f : Framing) (p : Bool) (r : Result A × OpenSession W)
    (k : A → Call (OpenSession W) B)
    → Keeps f p r.1
    → ((a : A) (s : OpenSession W) → Keeps f p s → Keeps f p (k a s).1)
    → Keeps f p (and_then r k).1
and_then-Keeps f p (ok a, s) k h step = step a s h
and_then-Keeps f p (err e, s) k h step = h

pub readable-Keeps :
    {W : Type 0} (f : Framing) (p : Bool) (node : Node W) (left : ℕ) (self : OpenSession W)
    → Keeps f p self
    → Keeps f p (readable node left self).1
unfolding readable
readable-Keeps f p node left self h = h

receive-Keeps :
    {W : Type 0} (f : Framing) (p : Bool) (node : Node W) (self : OpenSession W)
    → Keeps f p self
    → Keeps f p (receive node self).1
unfolding receive
receive-Keeps f p node self h =
    and_then-Keeps f p (on_node self (node.read self.world)) _ h (λ raw s g. g)

on_poll-Keeps :
    {W : Type 0} (f : Framing) (p : Bool) (node : Node W) (is_reply : List ℕ → Option (List ℕ))
    (skipped : ℕ) (again : ℕ → Call (OpenSession W) (List ℕ × ℕ)) (ready : Bool) (s : OpenSession W)
    → Keeps f p s
    → ((n : ℕ) (s : OpenSession W) → Keeps f p s → Keeps f p (again n s).1)
    → Keeps f p (on_poll node is_reply skipped again ready s).1
on_poll-Keeps f p node is_reply skipped again false s h step = step skipped s h
on_poll-Keeps {W = W} f p node is_reply skipped again true s h step =
    and_then-Keeps f p (receive node s) _ (receive-Keeps f p node s h)
      (λ raw s1 g. report (is_reply raw) s1 g step)
  where
    report :
        (o : Option (List ℕ)) (s1 : OpenSession W)
        → Keeps f p s1
        → ((n : ℕ) (s : OpenSession W) → Keeps f p s → Keeps f p (again n s).1)
        → Keeps f p (on_report skipped again o s1).1
    report none s1 g step = step (suc skipped) s1 g
    report (some a) s1 g step = g

wait-Keeps :
    {W : Type 0} (f : Framing) (p : Bool) (node : Node W) (is_reply : List ℕ → Option (List ℕ))
    (deadline fuel skipped : ℕ) (self : OpenSession W)
    → Keeps f p self
    → Keeps f p (wait node is_reply deadline fuel skipped self).1
wait-Keeps f p node is_reply deadline zero skipped self h =
    subst (λ t. Keeps f p t.1) (sym (wait-zero node is_reply deadline skipped self)) h
wait-Keeps f p node is_reply deadline (suc fuel) skipped self h =
    elim (Bool-cases (deadline - node.now self.world == 0)) [
      | inl late ↦
          subst (λ t. Keeps f p t.1) (sym (wait-late node is_reply deadline fuel skipped self late))
            h
      | inr early ↦
          subst (λ t. Keeps f p t.1)
            (sym (wait-early node is_reply deadline fuel skipped self early))
            (and_then-Keeps f p (readable node (deadline - node.now self.world) self) _
              (readable-Keeps f p node _ self h)
              (λ ready s g.
                on_poll-Keeps f p node is_reply skipped (wait node is_reply deadline fuel) ready s g
                  (λ n s k. wait-Keeps f p node is_reply deadline fuel n s k)))
    ]

pub write_wire-Keeps :
    {W : Type 0} (f : Framing) (p : Bool) (node : Node W) (wire : List ℕ) (self : OpenSession W)
    → Keeps f p self
    → Keeps f p (write_wire node wire self).1
unfolding write_wire
write_wire-Keeps f p node wire self h = h

-- Whatever a send gives, it leaves both as they were.
pub send_recv-Keeps :
    {W : Type 0} (f : Framing) (p : Bool) (node : Node W) (packet : List ℕ) (self : OpenSession W)
    → Keeps f p self
    → Keeps f p (send_recv node packet self).1
unfolding send_recv send_wire exchange
send_recv-Keeps f p node packet self h =
    and_then-Keeps f p _ _
      (and_then-Keeps f p
        (write_wire node (request self.framing packet) (record self { last_received = none })) _
        (write_wire-Keeps f p node (request self.framing packet)
          (record self { last_received = none }) h)
        (λ sent s g. wait-Keeps f p node _ _ _ 0 s g))
      (λ answer s g. g)
