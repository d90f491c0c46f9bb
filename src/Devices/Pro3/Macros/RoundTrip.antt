-- ===== src/Devices/Pro3/Macros/RoundTrip.antt =====
-- crates/controller-core/src/devices/pro3/macros.rs: step streams, encoded and decoded.
use b.Shared.{
  zero, ◌%◌, ◌≤◌, Bool-cases, inl, inr, not, ◌-◌, ◌==◌, take-length_append, drop-length_append,
  length-append, length-replicate, ◌>>=◌, ℕ, suc, ◌+◌, ◌*◌, ◌^◌, ◌<◌, ◌≡◌, refl, ap, ◌∙◌, sym, List,
  [], ◌∷◌, ◌++◌, map, length, take, replicate, All, Bool, ok, arith, append_assoc,
}
use b.Model.Mode.{Mode, same_mode}
use b.Devices.Pro3.{switch}
use b.Model.Macros.{MacroStep}
use b.Protocol.Bytes.{take_bytes}
use b.Protocol.Bytes.Fields.{take_bytes-ok}
use b.Devices.Pro3.Macros.{
  encode_macro_steps, padded_len, decode_macro_steps, route_triggers, encode_step,
  encode_steps_from, decode_step, decode_steps_from,
}
use b.Devices.Pro3.Macros.Buttons.{pressed_bits}
use b.Devices.Pro3.Macros.Routing.{route_triggers-Routed}
use b.Devices.Pro3.Macros.Steps.{
  record_bytes, left_joy, right_joy, place, encode_step-eq, decode_step-record, IsStep, as_played,
}

decode_steps_from-suc :
    (left i : ℕ) (analog : Bool) (stream bytes : List ℕ) (s : MacroStep) (others : List MacroStep)
    → take_bytes stream (i * 10) 10 ≡ ok bytes
    → decode_step analog bytes ≡ ok s
    → decode_steps_from left (i + 1) analog stream ≡ ok others
    → decode_steps_from (suc left) i analog stream ≡ ok (s ∷ others)
unfolding decode_steps_from
decode_steps_from-suc left i analog stream bytes s others taken read rest = ground arith

-- The records of some steps, at the end of `pre`.
record Coded (analog : Bool) (steps : List MacroStep) (i : ℕ) (pre pad : List ℕ) : Type 0 where
  records : List ℕ
  long : length records ≡ length steps * 10
  encoded :
      encode_steps_from analog i steps (pre ++ (replicate (length steps * 10) 0 ++ pad))
      ≡ ok (pre ++ (records ++ pad))
  decoded :
      decode_steps_from (length steps) i analog (pre ++ (records ++ pad))
      ≡ ok (map (as_played analog) steps)

encode_steps_from-cons :
    (analog : Bool) (i : ℕ) (s : MacroStep) (steps : List MacroStep) (out after : List ℕ)
    → encode_step analog (i * 10) s out ≡ ok after
    → encode_steps_from analog i (s ∷ steps) out ≡ encode_steps_from analog (i + 1) steps after
encode_steps_from-cons analog i s steps out after e =
    unfold encode_steps_from in ap (λ r. r >>= encode_steps_from analog (i + 1) steps) e

-- The record at the end of `pre`.
taken :
    (pre first rest : List ℕ) (i : ℕ)
    → length pre ≡ i * 10
    → length first ≡ 10
    → length (pre ++ (first ++ rest)) < 2 ^ 64
    → take_bytes (pre ++ (first ++ rest)) (i * 10) 10 ≡ ok first
taken pre first rest i e n f = rw (← e) (
    take_bytes-ok (pre ++ (first ++ rest)) (length pre) 10 f
      (omega (arith, length-append pre (first ++ rest), length-append first rest))
    ∙ ap (λ l. ok (take 10 l)) (drop-length_append (length pre) pre (first ++ rest) refl)
    ∙ ap ok (take-length_append 10 first rest (omega arith)))

ten_more :
    (n : ℕ) (pad : List ℕ) → replicate (suc n * 10) 0 ++ pad ≡ place (replicate (n * 10) 0 ++ pad)
ten_more n pad =
    let e : suc n * 10 ≡ suc (suc (suc (suc (suc (suc (suc (suc (suc (suc (n * 10)))))))))) =
      omega arith in
    ap (λ (k : ℕ). replicate k 0 ++ pad) e

coded :
    (analog : Bool) (steps : List MacroStep) (i : ℕ) (pre pad : List ℕ)
    → All IsStep steps
    → length pre ≡ i * 10
    → length pre + length steps * 10 + length pad < 2 ^ 64
    → Coded analog steps i pre pad
coded analog [] i pre pad h e f = record {
  records = [];
  long = refl;
  encoded = unfold encode_steps_from in refl;
  decoded = unfold decode_steps_from in refl;
}
coded analog (s ∷ steps) i pre pad h e f =
    let (keys, sets, small, holds) = pressed_bits s.pressed_buttons h.0.buttons in
    let routed = route_triggers-Routed analog s keys h.0.left h.0.right small holds in
    let k : ℕ = (route_triggers analog s keys).0 in
    let t : ℕ = (route_triggers analog s keys).1 in
    let first : List ℕ = record_bytes s.duration_ms k t (left_joy s) (right_joy s) [] in
    let behind : List ℕ = replicate (length steps * 10) 0 ++ pad in
    let far : length (pre ++ first) ≡ length pre + 10 = omega (arith, length-append pre first) in
    let rest =
      coded analog steps (i + 1) (pre ++ first) pad h.1 (omega (arith, far)) (omega (arith, far)) in
    let total : length behind ≡ length steps * 10 + length pad = omega (
      arith,
      length-append (replicate (length steps * 10) 0) pad,
      length-replicate {A = ℕ} (length steps * 10) 0,
    ) in
    let wide : length (pre ++ (first ++ (rest.records ++ pad)))
        ≡ length pre + 10 + length steps * 10 + length pad =
      omega (
        arith,
        length-append pre (first ++ (rest.records ++ pad)),
        length-append rest.records pad,
        rest.long,
      ) in
    let stream : List ℕ = pre ++ ((first ++ rest.records) ++ pad) in
    let moved : stream ≡ (pre ++ first) ++ (rest.records ++ pad) =
      sym (append_assoc pre first (rest.records ++ pad)) in
    record {
      records = first ++ rest.records;
      long = omega (arith, rest.long);
      encoded =
          ap (λ l. encode_steps_from analog i (s ∷ steps) (pre ++ l)) (ten_more (length steps) pad)
          ∙ encode_steps_from-cons analog i s steps (pre ++ place behind)
              (pre ++ record_bytes s.duration_ms k t (left_joy s) (right_joy s) behind)
              (ap (λ (b : ℕ). encode_step analog b s (pre ++ place behind)) (sym e)
                ∙ encode_step-eq analog s keys pre behind sets (omega (arith, total)))
          ∙ ap (encode_steps_from analog (i + 1) steps) (sym (append_assoc pre first behind))
          ∙ rest.encoded
          ∙ ap ok (sym moved);
      decoded =
          decode_steps_from-suc (length steps) i analog stream first (as_played analog s)
            (map (as_played analog) steps)
            (taken pre first (rest.records ++ pad) i e refl (omega (arith, wide)))
            (decode_step-record analog s keys h.0 routed)
            (ap (decode_steps_from (length steps) (i + 1) analog) moved ∙ rest.decoded);
    }

replicate-add : (n m : ℕ) → replicate {A = ℕ} (n + m) 0 ≡ replicate n 0 ++ replicate m 0
replicate-add zero m = let e : 0 + m ≡ m = omega arith in rw e
replicate-add (suc n) m =
    let e : suc n + m ≡ suc (n + m) = omega arith in rw e (ap (λ l. 0 ∷ l) (replicate-add n m))

-- Padding reaches the next multiple of 32.
padded : (n : ℕ) → (p : ℕ) × (padded_len n ≡ n + p) × (p < 32) × ((n + p) % 32 ≡ 0)
padded n = elim (Bool-cases (n % 32 == 0)) [
  | inl even ↦ (0, rw even (omega arith), omega arith, ground arith)
  | inr odd ↦ (32 - n % 32, rw odd (ground arith), ground arith, omega arith)
]

-- Steps in range with known buttons encode in every mode, to a stream of whole 32-byte chunks with
-- less than a chunk of padding, and decode from it to what the pad plays: the buttons in the table's
-- order, the triggers as values, no glide.
pub decode-encode_macro_steps :
    (mode : Mode) (steps : List MacroStep)
    → All IsStep steps
    → length steps * 10 + 32 < 2 ^ 64
    → (stream : List ℕ) × (encode_macro_steps steps mode ≡ ok stream)
      × (length stream % 32 ≡ 0)
      × (length steps * 10 ≤ length stream)
      × (length stream < length steps * 10 + 32)
      × (decode_macro_steps stream (length steps) mode
          ≡ ok (map (as_played (not (same_mode mode switch))) steps))
decode-encode_macro_steps mode [] h f = (
  [],
  unfold encode_macro_steps in refl,
  refl,
  omega arith,
  omega arith,
  unfold decode_macro_steps decode_steps_from in refl,
)
decode-encode_macro_steps mode (s ∷ steps) h f =
    let (p, plen, small, whole) = padded (length (s ∷ steps) * 10) in
    let pad : List ℕ = replicate p 0 in
    let n : ℕ = length (s ∷ steps) in
    let analog : Bool = not (same_mode mode switch) in
    let lpad : length pad ≡ p = length-replicate {A = ℕ} p 0 in
    let c = coded analog (s ∷ steps) 0 [] pad h (omega arith) (omega (arith, lpad)) in
    let long : length (c.records ++ pad) ≡ n * 10 + p =
      omega (arith, length-append c.records pad, c.long, lpad) in
    (
      c.records ++ pad,
      unfold encode_macro_steps in
          (ap (encode_steps_from analog 0 (s ∷ steps))
              (ap (λ (k : ℕ). replicate k 0) plen ∙ replicate-add (n * 10) p)
            ∙ c.encoded),
      rw long whole,
      omega (arith, long),
      omega (arith, long),
      unfold decode_macro_steps in c.decoded,
    )
