-- ===== src/Transport/Session/Waiting.antt =====
-- What a pass of the wait for a reply does, and when its fuel does not show.
use b.Shared.{
  subst, ℕ, zero, suc, ◌-◌, ◌==◌, ◌≤◌, ◌<◌, ◌≡◌, refl, ap, ◌∙◌, sym, if◌then◌else◌, Bool, true,
  false, not, List, Option, none, some, Bool-cases, inl, inr, arith, ok, err, Result,
}
use b.Transport.Commands.{and_then, Call}
use b.Transport.Session.{Node, OpenSession, wait, readable, receive, on_node}

-- An assumption on the node: a poll takes at least one unit of the clock, a nanosecond, and a read does
-- not turn the clock back. (`Instant` itself promises the second only.)
record Advances {W : Type 0} (node : Node W) : Type 0 where
  poll_takes_time : (left : ℕ) (w : W) → node.now w < node.now (node.poll left w).1
  read_keeps_time : (w : W) → node.now w ≤ node.now (node.read w).1

pub and_then-cong :
    {S A B : Type 0} (r : Result A × S) (f g : A → Call S B)
    → ((a : A) (s : S) → r ≡ (ok a, s) → f a s ≡ g a s)
    → and_then r f ≡ and_then r g
and_then-cong (ok a, s) f g h = h a s refl
and_then-cong (err e, s) f g h = refl

readable-later :
    {W : Type 0} (node : Node W)
    → Advances node
    → (left : ℕ) (self s1 : OpenSession W) (r : Result Bool) → readable node left self ≡ (r, s1)
    → node.now self.world < node.now s1.world
unfolding readable
readable-later node law left self s1 r e =
    subst (λ t. node.now self.world < node.now t) (ap (λ t. t.1.world) e)
      (law.poll_takes_time left self.world)

receive-world :
    {W : Type 0} (node : Node W) (self s1 : OpenSession W) (raw : List ℕ)
    → receive node self ≡ (ok raw, s1)
    → (node.read self.world).1 ≡ s1.world
unfolding receive
receive-world {W = W} node self s1 raw e = go (node.read self.world) e
  where
    go :
        (r : Result (List ℕ) × W)
        → and_then (on_node self r) (λ raw self. (ok raw, record self { last_received = some raw }))
          ≡ (ok raw, s1)
        → r.1 ≡ s1.world
    go (ok a, w) e = ap (λ t. t.1.world) e
    go (err x, w) e = ap (λ t. t.1.world) e

receive-later :
    {W : Type 0} (node : Node W)
    → Advances node
    → (self s1 : OpenSession W) (raw : List ℕ) → receive node self ≡ (ok raw, s1)
    → node.now self.world ≤ node.now s1.world
receive-later node law self s1 raw e =
    subst (λ t. node.now self.world ≤ node.now t) (receive-world node self s1 raw e)
      (law.read_keeps_time self.world)

-- What a pass does with a report.
abbrev pub on_report :
    {W : Type 0}
    → ℕ
    → (ℕ → Call (OpenSession W) (List ℕ × ℕ))
    → Option (List ℕ)
    → Call (OpenSession W) (List ℕ × ℕ)
on_report skipped again (some answer) self = (ok (answer, skipped), self)
on_report skipped again none self = again (suc skipped) self

-- What a pass does once the poll is done.
abbrev pub on_poll :
    {W : Type 0}
    → Node W
    → (List ℕ → Option (List ℕ))
    → ℕ
    → (ℕ → Call (OpenSession W) (List ℕ × ℕ))
    → Bool
    → Call (OpenSession W) (List ℕ × ℕ)
on_poll node is_reply skipped again false self = again skipped self
on_poll node is_reply skipped again true self =
    and_then (receive node self) (λ raw self. on_report skipped again (is_reply raw) self)

pub wait-early :
    {W : Type 0} (node : Node W) (is_reply : List ℕ → Option (List ℕ)) (deadline fuel skipped : ℕ)
    (self : OpenSession W)
    → (deadline - node.now self.world == 0) ≡ false
    → wait node is_reply deadline (suc fuel) skipped self
      ≡ and_then
          (readable node (deadline - node.now self.world) self)
          (on_poll node is_reply skipped (wait node is_reply deadline fuel))
unfolding wait
wait-early {W = W} node is_reply deadline fuel skipped self early =
    rw early (and_then-cong (readable node (deadline - node.now self.world) self) _ _ same)
  where
    report :
        (o : Option (List ℕ)) (s1 : OpenSession W)
        → elim o [
          | some answer ↦ (ok (answer, skipped), s1)
          | none ↦ wait node is_reply deadline fuel (suc skipped) s1
        ]
          ≡ on_report skipped (wait node is_reply deadline fuel) o s1
    report none s1 = refl
    report (some a) s1 = refl

    same :
        (ready : Bool) (s1 : OpenSession W)
        → readable node (deadline - node.now self.world) self ≡ (ok ready, s1)
        → (if not ready
            then wait node is_reply deadline fuel skipped s1
            else and_then (receive node s1) (λ raw self. elim (is_reply raw) [
              | some answer ↦ (ok (answer, skipped), self)
              | none ↦ wait node is_reply deadline fuel (suc skipped) self
            ]))
          ≡ on_poll node is_reply skipped (wait node is_reply deadline fuel) ready s1
    same false s1 e = refl
    same true s1 e = and_then-cong (receive node s1) _ _ (λ raw s2 got. report (is_reply raw) s2)

on_report-cong :
    {W : Type 0} (skipped : ℕ) (f g : ℕ → Call (OpenSession W) (List ℕ × ℕ)) (o : Option (List ℕ))
    (s : OpenSession W)
    → f (suc skipped) s ≡ g (suc skipped) s
    → on_report skipped f o s ≡ on_report skipped g o s
on_report-cong skipped f g none s e = e
on_report-cong skipped f g (some a) s e = refl

on_poll-cong :
    {W : Type 0} (node : Node W)
    → Advances node
    → (is_reply : List ℕ → Option (List ℕ)) (deadline n skipped : ℕ)
      (f g : ℕ → Call (OpenSession W) (List ℕ × ℕ)) (ready : Bool) (s1 : OpenSession W)
    → deadline - node.now s1.world < n
    → ((count : ℕ) (s : OpenSession W) → deadline - node.now s.world < n → f count s ≡ g count s)
    → on_poll node is_reply skipped f ready s1 ≡ on_poll node is_reply skipped g ready s1
on_poll-cong node law is_reply deadline n skipped f g false s1 h same = same skipped s1 h
on_poll-cong node law is_reply deadline n skipped f g true s1 h same =
    and_then-cong (receive node s1) _ _ (λ raw s2 got.
      let kept : node.now s1.world ≤ node.now s2.world = receive-later node law s1 s2 raw got in
      on_report-cong skipped f g (is_reply raw) s2 (same (suc skipped) s2 (omega arith)))

-- On a node each of whose polls moves the clock on, the wait gives the same with all fuels above the
-- time that is left.
wait-fuel :
    {W : Type 0} (node : Node W)
    → Advances node
    → (is_reply : List ℕ → Option (List ℕ)) (deadline n m skipped : ℕ) (self : OpenSession W)
    → deadline - node.now self.world < n
    → n ≤ m
    → wait node is_reply deadline n skipped self ≡ wait node is_reply deadline m skipped self
wait-fuel {W = W} node law is_reply deadline zero m skipped self h k = absurd (omega arith)
wait-fuel {W = W} node law is_reply deadline (suc n) zero skipped self h k = absurd (omega arith)
wait-fuel {W = W} node law is_reply deadline (suc n) (suc m) skipped self h k =
    elim (Bool-cases (deadline - node.now self.world == 0)) [
      | inl late ↦ unfold wait in rw late
      | inr early ↦
          wait-early node is_reply deadline n skipped self early
          ∙ and_then-cong (readable node (deadline - node.now self.world) self) _ _ (λ ready s1 e.
            let later : node.now self.world < node.now s1.world =
              readable-later node law _ self s1 (ok ready) e in
            on_poll-cong node law is_reply deadline n skipped _ _ ready s1 (ground arith)
              (λ count s left. wait-fuel node law is_reply deadline n m count s left (omega arith)))
          ∙ sym (wait-early node is_reply deadline m skipped self early)
    ]
