-- ===== src/Transport/Session/Replies.antt =====
-- What a send gives back: the first report that answers its packet.
use b.Shared.{
  timeout, ap₂, true, ℕ, zero, suc, ◌+◌, ◌-◌, ◌==◌, ◌≡◌, refl, ap, ◌∙◌, sym, Bool, true, false,
  List, Option, none, some, Bool-cases, inl, inr, ok, err, Result,
}
use b.Protocol.Framing.{Framing, request, reply}
use b.Transport.Commands.{Call}
use b.Transport.Commands.Inversion.{and_then-eq-ok, failed_apart}
use b.Transport.Session.{
  Node, OpenSession, wait, readable, receive, on_node, send_recv, exchange, send_wire, write_wire,
}
use b.Transport.Session.Waiting.{on_poll, on_report, wait-early}

-- Sessions that differ in the world and in the last report only.
abbrev pub SameButReports : {W : Type 0} → OpenSession W → OpenSession W → Type 0
SameButReports a b =
    (b.paused ≡ a.paused)
    × (b.framing ≡ a.framing)
    × (b.reply_budget ≡ a.reply_budget)
    × (b.last_sent ≡ a.last_sent)

same_trans :
    {W : Type 0} (a b c : OpenSession W)
    → SameButReports a b
    → SameButReports b c
    → SameButReports a c
same_trans a b c (p, f, t, l) (p', f', t', l') = (p' ∙ p, f' ∙ f, t' ∙ t, l' ∙ l)

pub readable-same :
    {W : Type 0} (node : Node W) (left : ℕ) (self s1 : OpenSession W) (r : Result Bool)
    → readable node left self ≡ (r, s1)
    → SameButReports self s1
unfolding readable
readable-same node left self s1 r e = (
  ap (λ t. t.1.paused) (sym e),
  ap (λ t. t.1.framing) (sym e),
  ap (λ t. t.1.reply_budget) (sym e),
  ap (λ t. t.1.last_sent) (sym e),
)

pair_ok :
    {S A : Type 0} {a b : A} {s s' : S} (r : Result A × S) → r ≡ (ok a, s) → r ≡ (ok b, s') → a ≡ b
pair_ok r e f = cc

pub receive-ok :
    {W : Type 0} (node : Node W) (self s1 : OpenSession W) (raw : List ℕ)
    → receive node self ≡ (ok raw, s1)
    → SameButReports self s1 × (s1.last_received ≡ some raw)
unfolding receive
receive-ok node self s1 raw e =
    let (got, s, read, rest) = and_then-eq-ok (on_node self (node.read self.world)) _ e in
    let is : got ≡ raw = pair_ok _ refl rest in
    (
      (
        ap (λ t. t.1.paused) (sym rest) ∙ ap (λ t. t.1.paused) (sym read),
        ap (λ t. t.1.framing) (sym rest) ∙ ap (λ t. t.1.framing) (sym read),
        ap (λ t. t.1.reply_budget) (sym rest) ∙ ap (λ t. t.1.reply_budget) (sym read),
        ap (λ t. t.1.last_sent) (sym rest) ∙ ap (λ t. t.1.last_sent) (sym read),
      ),
      ap (λ t. t.1.last_received) (sym rest) ∙ ap some is,
    )

abbrev Found :
    {W : Type 0} → (List ℕ → Option (List ℕ)) → OpenSession W → OpenSession W → List ℕ → Type 0
Found is_reply self s' answer =
    SameButReports self s'
    × ((raw : List ℕ) × (s'.last_received ≡ some raw) × (is_reply raw ≡ some answer))

on_report-ok :
    {W : Type 0} (is_reply : List ℕ → Option (List ℕ)) (skipped : ℕ)
    (again : ℕ → Call (OpenSession W) (List ℕ × ℕ)) (raw : List ℕ) (o : Option (List ℕ))
    (s s' : OpenSession W) (answer : List ℕ) (count : ℕ)
    → is_reply raw ≡ o
    → s.last_received ≡ some raw
    → on_report skipped again o s ≡ (ok (answer, count), s')
    → ((n : ℕ) (s : OpenSession W)
        → again n s ≡ (ok (answer, count), s')
        → Found is_reply s s' answer)
    → Found is_reply s s' answer
on_report-ok is_reply skipped again raw none s s' answer count q last e ih = ih (suc skipped) s e
on_report-ok is_reply skipped again raw (some a) s s' answer count q last e ih = (
  (
    ap (λ t. t.1.paused) (sym e),
    ap (λ t. t.1.framing) (sym e),
    ap (λ t. t.1.reply_budget) (sym e),
    ap (λ t. t.1.last_sent) (sym e),
  ),
  (raw, ap (λ t. t.1.last_received) (sym e) ∙ last, q ∙ ap (λ t. some t.0) (pair_ok _ refl e)),
)

on_poll-ok :
    {W : Type 0} (node : Node W) (is_reply : List ℕ → Option (List ℕ)) (skipped : ℕ)
    (again : ℕ → Call (OpenSession W) (List ℕ × ℕ)) (ready : Bool) (s s' : OpenSession W)
    (answer : List ℕ) (count : ℕ)
    → on_poll node is_reply skipped again ready s ≡ (ok (answer, count), s')
    → ((n : ℕ) (s : OpenSession W)
        → again n s ≡ (ok (answer, count), s')
        → Found is_reply s s' answer)
    → Found is_reply s s' answer
on_poll-ok node is_reply skipped again false s s' answer count e ih = ih skipped s e
on_poll-ok node is_reply skipped again true s s' answer count e ih =
    let (raw, s1, got, rest) = and_then-eq-ok (receive node s) _ e in
    let (same, last) = receive-ok node s s1 raw got in
    let (same', found) =
      on_report-ok is_reply skipped again raw (is_reply raw) s1 s' answer count refl last rest ih in
    (same_trans s s1 s' same same', found)

pub wait-zero :
    {W : Type 0} (node : Node W) (is_reply : List ℕ → Option (List ℕ)) (deadline skipped : ℕ)
    (self : OpenSession W)
    → wait node is_reply deadline 0 skipped self ≡ (err timeout, self)
unfolding wait
wait-zero node is_reply deadline skipped self = refl

pub wait-late :
    {W : Type 0} (node : Node W) (is_reply : List ℕ → Option (List ℕ)) (deadline fuel skipped : ℕ)
    (self : OpenSession W)
    → (deadline - node.now self.world == 0) ≡ true
    → wait node is_reply deadline (suc fuel) skipped self ≡ (err timeout, self)
unfolding wait
wait-late node is_reply deadline fuel skipped self late = rw late

-- A report that answers is the one kept as the last received.
pub wait-ok :
    {W : Type 0} (node : Node W) (is_reply : List ℕ → Option (List ℕ)) (deadline fuel skipped : ℕ)
    (self s' : OpenSession W) (answer : List ℕ) (count : ℕ)
    → wait node is_reply deadline fuel skipped self ≡ (ok (answer, count), s')
    → SameButReports self s'
      × ((raw : List ℕ) × (s'.last_received ≡ some raw) × (is_reply raw ≡ some answer))
wait-ok node is_reply deadline zero skipped self s' answer count e =
    failed_apart _ (wait-zero node is_reply deadline skipped self) e
wait-ok {W = W} node is_reply deadline (suc fuel) skipped self s' answer count e =
    elim (Bool-cases (deadline - node.now self.world == 0)) [
      | inl late ↦ failed_apart _ (wait-late node is_reply deadline fuel skipped self late) e
      | inr early ↦
          let (ready, s1, polled, rest) =
            and_then-eq-ok (readable node (deadline - node.now self.world) self) _
              (sym (wait-early node is_reply deadline fuel skipped self early) ∙ e) in
          let (same, found) =
            on_poll-ok node is_reply skipped _ ready s1 s' answer count rest
              (λ n s. wait-ok node is_reply deadline fuel n s s' answer count) in
          (same_trans self s1 s' (readable-same node _ self s1 (ok ready) polled) same, found)
    ]

exchange-ok :
    {W : Type 0} (node : Node W) (wire : List ℕ) (is_reply : List ℕ → Option (List ℕ))
    (self s' : OpenSession W) (answer : List ℕ × ℕ)
    → exchange node wire is_reply self ≡ (ok answer, s')
    → (s1 : OpenSession W) × (write_wire node wire self ≡ (ok tt, s1))
      × (wait node is_reply (node.now s1.world + s1.reply_budget) (suc s1.reply_budget) 0 s1
          ≡ (ok answer, s'))
unfolding exchange
exchange-ok node wire is_reply self s' answer e =
    let (u, s1, sent, got) = and_then-eq-ok (write_wire node wire self) _ e in (s1, sent, got)

send_wire-ok :
    {W : Type 0} (node : Node W) (wire : List ℕ) (is_reply : List ℕ → Option (List ℕ))
    (self s' : OpenSession W) (answer : List ℕ)
    → send_wire node wire is_reply self ≡ (ok answer, s')
    → (count : ℕ) × (exchange node wire is_reply (record self { last_received = none })
        ≡ (ok (answer, count), s'))
unfolding send_wire
send_wire-ok node wire is_reply self s' answer e =
    let ((a, count), s1, got, end) =
      and_then-eq-ok (exchange node wire is_reply (record self { last_received = none })) _ e in
    (count, got ∙ ap₂ (λ x y. (ok (x, count), y)) (pair_ok _ refl end) (ap (λ t. t.1) end))

write_wire-ok :
    {W : Type 0} (node : Node W) (wire : List ℕ) (self s1 : OpenSession W)
    → write_wire node wire self ≡ (ok tt, s1)
    → SameButReports (record self { last_sent = wire }) s1
unfolding write_wire
write_wire-ok node wire self s1 e = (
  ap (λ t. t.1.paused) (sym e),
  ap (λ t. t.1.framing) (sym e),
  ap (λ t. t.1.reply_budget) (sym e),
  ap (λ t. t.1.last_sent) (sym e),
)

-- The node took the frame of the packet, and the wait from the world it left gave the answer.
abbrev pub Exchanged :
    {W : Type 0} → Node W → Framing → List ℕ → List ℕ → OpenSession W → OpenSession W → Type 0
Exchanged {W = W} node framing packet answer self s' =
    (s1 : OpenSession W) × (node.write_all (request framing packet) self.world ≡ (ok tt, s1.world))
    × ((count : ℕ) × (wait node (λ raw. reply framing raw packet)
            (node.now s1.world + s1.reply_budget) (suc s1.reply_budget) 0 s1
          ≡ (ok (answer, count), s')))

write_wire-world :
    {W : Type 0} (node : Node W) (wire : List ℕ) (self s1 : OpenSession W)
    → write_wire node wire self ≡ (ok tt, s1)
    → node.write_all wire self.world ≡ (ok tt, s1.world)
unfolding write_wire
write_wire-world node wire self s1 e = ap₂ (λ r w. (r, w)) (ap (λ t. t.0) e) (ap (λ t. t.1.world) e)

-- A send that succeeds first wrote the frame of its packet to the node, and the node took it; from
-- there it waited for the reply. What it gives is the reply to its packet, made from the last report
-- read; the frame is the one last sent, and the session is otherwise as before.
pub send_recv-ok :
    {W : Type 0} (node : Node W) (packet answer : List ℕ) (self s' : OpenSession W)
    → send_recv node packet self ≡ (ok answer, s')
    → (s'.paused ≡ self.paused)
      × (s'.framing ≡ self.framing)
      × (s'.reply_budget ≡ self.reply_budget)
      × (s'.last_sent ≡ request self.framing packet)
      × ((raw : List ℕ) × (s'.last_received ≡ some raw)
          × (reply self.framing raw packet ≡ some answer))
      × Exchanged node self.framing packet answer self s'
unfolding send_recv
send_recv-ok {W = W} node packet answer self s' e =
    let (count, exchanged) = send_wire-ok node _ _ self s' answer e in
    let (s1, sent, waited) =
      exchange-ok node _ _ (record self { last_received = none }) s' (answer, count) exchanged in
    let ((p, f, t, l), found) = wait-ok node _ _ _ 0 s1 s' answer count waited in
    let (p', f', t', l') = write_wire-ok node _ (record self { last_received = none }) s1 sent in
    let took = write_wire-world node _ (record self { last_received = none }) s1 sent in
    (p ∙ p', f ∙ f', t ∙ t', l ∙ l', found, (s1, took, (count, waited)))
