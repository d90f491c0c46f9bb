-- ===== src/Protocol/Bytes/Windows.antt =====
-- What a window of a buffer holds after bytes were copied into the buffer.
use b.Shared.{
  ℕ, zero, suc, ◌+◌, ◌-◌, ◌≤◌, ◌≡◌, refl, ap, ◌∙◌, List, [], ◌∷◌, ◌++◌, length, take, drop,
  take-length_append, drop-length_append, length-append, length-take, length-drop, drop-drop, arith,
}
use b.Protocol.Bytes.{splice}

pub length-splice :
    (buf : List ℕ) (off : ℕ) (src : List ℕ)
    → off + length src ≤ length buf
    → length (splice buf off src) ≡ length buf
length-splice buf off src h = omega (
  arith,
  length-append (take off buf) (src ++ drop (length src) (drop off buf)),
  length-append src (drop (length src) (drop off buf)),
  length-take off buf,
  length-drop (length src) (drop off buf),
  length-drop off buf,
)

-- The bytes just copied.
pub window-splice_self :
    (buf : List ℕ) (off : ℕ) (src : List ℕ)
    → off + length src ≤ length buf
    → take (length src) (drop off (splice buf off src)) ≡ src
window-splice_self buf zero src h = take-length_append (length src) src (drop (length src) buf) refl
window-splice_self [] (suc off) src h = absurd (omega arith)
window-splice_self (x ∷ buf) (suc off) src h = window-splice_self buf off src (omega arith)

take-append_within : (n : ℕ) (xs ys : List ℕ) → n ≤ length xs → take n (xs ++ ys) ≡ take n xs
take-append_within zero xs ys h = refl
take-append_within (suc n) [] ys h = absurd (omega arith)
take-append_within (suc n) (x ∷ xs) ys h =
    ap (λ t. x ∷ t) (take-append_within n xs ys (omega arith))

-- A window that ends before them.
pub window-splice_before :
    (buf : List ℕ) (off : ℕ) (src : List ℕ) (at n : ℕ)
    → at + n ≤ off
    → off + length src ≤ length buf
    → take n (drop at (splice buf off src)) ≡ take n (drop at buf)
window-splice_before buf zero src at zero h k = refl
window-splice_before buf zero src at (suc n) h k = absurd (omega arith)
window-splice_before [] (suc off) src at n h k = absurd (omega arith)
window-splice_before (x ∷ buf) (suc off) src zero zero h k = refl
window-splice_before (x ∷ buf) (suc off) src zero (suc n) h k =
    ap (λ t. x ∷ t) (window-splice_before buf off src zero n (omega arith) (omega arith))
window-splice_before (x ∷ buf) (suc off) src (suc at) n h k =
    window-splice_before buf off src at n (omega arith) (omega arith)

-- A window that begins behind them.
pub drop-splice_after :
    (buf : List ℕ) (off : ℕ) (src : List ℕ) (at : ℕ)
    → off + length src ≤ at
    → off + length src ≤ length buf
    → drop at (splice buf off src) ≡ drop at buf
drop-splice_after buf zero src at h k =
    ap (λ (t : ℕ). drop t (src ++ drop (length src) buf))
      (let e : at ≡ length src + (at - length src) = omega arith in e)
    ∙ rw
        (
          ← drop-drop (at - length src) (length src) (src ++ drop (length src) buf),
          drop-length_append (length src) src (drop (length src) buf) refl,
        )
        (drop-drop (at - length src) (length src) buf ∙ ap (λ (t : ℕ). drop t buf) (omega arith))
drop-splice_after [] (suc off) src at h k = absurd (omega arith)
drop-splice_after (x ∷ buf) (suc off) src zero h k = absurd (omega arith)
drop-splice_after (x ∷ buf) (suc off) src (suc at) h k =
    drop-splice_after buf off src at (omega arith) (omega arith)
