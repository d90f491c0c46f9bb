-- ===== src/Protocol/Bytes/Behind.antt =====
-- Fields of a buffer behind a prefix: they are those of the buffer without it.
use b.Shared.{
  zero, ℕ, suc, ◌+◌, ◌≤◌, ◌≡◌, ap, ◌∙◌, List, [], ◌∷◌, ◌++◌, length, set, take, drop, ok, arith,
  length-append,
}
use b.Protocol.Bytes.{
  splice, slice, put_slice, put_u16_le, put_u32_le, to_le_bytes_u16, to_le_bytes_u32,
}
use b.Protocol.Bytes.Fields.{Fits, put_slice-ok, slice-ok}

splice-append :
    (pre ys : List ℕ) (k : ℕ) (src : List ℕ)
    → splice (pre ++ ys) (length pre + k) src ≡ pre ++ splice ys k src
splice-append [] ys k src = let e : 0 + k ≡ k = omega arith in rw e
splice-append (x ∷ pre) ys k src =
    let e : suc (length pre) + k ≡ suc (length pre + k) = omega arith in
    rw e (ap (λ l. x ∷ l) (splice-append pre ys k src))

pub set-append :
    (pre ys : List ℕ) (n k v : ℕ) → length pre ≡ n → set (pre ++ ys) (n + k) v ≡ pre ++ set ys k v
set-append [] ys zero k v at = let e : 0 + k ≡ k = omega arith in rw e
set-append [] ys (suc n) k v at = absurd (omega arith)
set-append (x ∷ pre) ys zero k v at = absurd (omega arith)
set-append (x ∷ pre) ys (suc n) k v at =
    let e : suc n + k ≡ suc (n + k) = omega arith in
    rw e (ap (λ l. x ∷ l) (set-append pre ys n k v (omega arith)))

drop-append : (pre ys : List ℕ) (k : ℕ) → drop (length pre + k) (pre ++ ys) ≡ drop k ys
drop-append [] ys k = let e : 0 + k ≡ k = omega arith in rw e
drop-append (x ∷ pre) ys k =
    let e : suc (length pre) + k ≡ suc (length pre + k) = omega arith in rw e (drop-append pre ys k)

module _ (pre ys : List ℕ) (n : ℕ) (at : length pre ≡ n) (fits : Fits (pre ++ ys)) where
  put_slice-append :
      (k : ℕ) (src : List ℕ)
      → k + length src ≤ length ys
      → put_slice (pre ++ ys) (n + k) src ≡ ok (pre ++ splice ys k src)
  put_slice-append k src h = rw (← at) (
      put_slice-ok (pre ++ ys) (length pre + k) src fits (omega (arith, length-append pre ys))
      ∙ ap ok (splice-append pre ys k src))

  pub put_u16_le-append :
      (k v : ℕ)
      → k + 2 ≤ length ys
      → put_u16_le (pre ++ ys) (n + k) v ≡ ok (pre ++ splice ys k (to_le_bytes_u16 v))
  unfolding put_u16_le
  put_u16_le-append k v h = put_slice-append k (to_le_bytes_u16 v) h

  pub put_u32_le-append :
      (k v : ℕ)
      → k + 4 ≤ length ys
      → put_u32_le (pre ++ ys) (n + k) v ≡ ok (pre ++ splice ys k (to_le_bytes_u32 v))
  unfolding put_u32_le
  put_u32_le-append k v h = put_slice-append k (to_le_bytes_u32 v) h

  pub slice-append :
      (len k : ℕ) → k + len ≤ length ys → slice len (pre ++ ys) (n + k) ≡ ok (take len (drop k ys))
  slice-append len k h = rw (← at) (
      slice-ok len (pre ++ ys) (length pre + k) fits (omega (arith, length-append pre ys))
      ∙ ap (λ l. ok (take len l)) (drop-append pre ys k))
