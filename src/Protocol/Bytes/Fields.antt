-- ===== src/Protocol/Bytes/Fields.antt =====
-- Fields of a buffer: when a read or a write succeeds, what it gives, and that a field reads back
-- as it was written while the bytes around it stay.
use native.Mathlib.Decide.{dec_le}
use b.Protocol.Layout.{word_at}
use b.Shared.{
  sym, ◌⊎◌, inl, inr, ap, ◌∙◌, get_or, get_or-take, get_or-drop, ◌%◌, ◌*◌, ◌/◌, suc, ℕ, ◌+◌, ◌-◌,
  ◌^◌, ◌≤◌, ◌<◌, ◌≡◌, List, length, take, drop, arith, ok, err, decode, le→leb, lt→ltb,
}
use b.Protocol.Bytes.Windows.{
  length-splice, window-splice_self, window-splice_before, drop-splice_after,
}
use b.Protocol.Bytes.{
  IsU16, IsU32, read_u16_le, read_u32_le, put_u16_le, put_u32_le, to_le_bytes_u16, to_le_bytes_u32,
  take_bytes, splice, slice, put_slice,
}

-- No buffer is as long as the address space.
abbrev pub Fits : List ℕ → Type 0
Fits buf = length buf < 2 ^ 64

pub slice-ok :
    (n : ℕ) (buf : List ℕ) (off : ℕ)
    → Fits buf
    → off + n ≤ length buf
    → slice n buf off ≡ ok (take n (drop off buf))
unfolding slice
slice-ok n buf off f h =
    let e : (off + n) - off ≡ n = omega arith in
    rw (
      lt→ltb (off + n) (2 ^ 64) (omega arith),
      le→leb off (off + n) (omega arith),
      le→leb (off + n) (length buf) h,
      e,
    )

slice-err : (n : ℕ) (buf : List ℕ) (off : ℕ) → length buf < off + n → slice n buf off ≡ err decode
unfolding slice
slice-err n buf off h = ground arith

pub put_slice-ok :
    (buf : List ℕ) (off : ℕ) (src : List ℕ)
    → Fits buf
    → off + length src ≤ length buf
    → put_slice buf off src ≡ ok (splice buf off src)
unfolding put_slice
put_slice-ok buf off src f h = rw (
  lt→ltb (off + length src) (2 ^ 64) (omega arith),
  le→leb off (off + length src) (omega arith),
  le→leb (off + length src) (length buf) h,
)

pub take_bytes-ok :
    (buf : List ℕ) (off n : ℕ)
    → Fits buf
    → off + n ≤ length buf
    → take_bytes buf off n ≡ ok (take n (drop off buf))
unfolding take_bytes slice
take_bytes-ok buf off n f h = slice-ok n buf off f h

pub take_bytes-err :
    (buf : List ℕ) (off n : ℕ) → length buf < off + n → take_bytes buf off n ≡ err decode
unfolding take_bytes slice
take_bytes-err buf off n h = slice-err n buf off h

pub window_or :
    (buf : List ℕ) (off n i : ℕ)
    → i < n
    → get_or (take n (drop off buf)) i 0 ≡ get_or buf (off + i) 0
window_or buf off n i h = get_or-take n i (drop off buf) 0 h ∙ get_or-drop off i buf 0

pub read_u16_le-ok :
    (buf : List ℕ) (off : ℕ)
    → Fits buf
    → off + 2 ≤ length buf
    → read_u16_le buf off ≡ ok (word_at buf off)
unfolding read_u16_le
read_u16_le-ok buf off f h =
    rw
      (
        slice-ok 2 buf off f h,
        window_or buf off 2 0 (omega arith),
        window_or buf off 2 1 (omega arith),
      )
      (let e : off + 0 ≡ off = omega arith in let g : off + 1 ≡ suc off = omega arith in rw (e, g))

read_back :
    (buf : List ℕ) (off v : ℕ)
    → Fits buf
    → off + 2 ≤ length buf
    → IsU16 v
    → read_u16_le (splice buf off (to_le_bytes_u16 v)) off ≡ ok v
unfolding read_u16_le
read_back buf off v f h u =
    let same : length (splice buf off (to_le_bytes_u16 v)) ≡ length buf =
      length-splice buf off (to_le_bytes_u16 v) h in
    let value : v % 256 + v / 256 % 256 * 256 ≡ v = omega arith in
    rw
      (
        slice-ok 2 (splice buf off (to_le_bytes_u16 v)) off (omega (arith, same))
            (omega (arith, same)),
        window-splice_self buf off (to_le_bytes_u16 v) h,
      )
      (ap ok value)

read_back_u32 :
    (buf : List ℕ) (off v : ℕ)
    → Fits buf
    → off + 4 ≤ length buf
    → IsU32 v
    → read_u32_le (splice buf off (to_le_bytes_u32 v)) off ≡ ok v
unfolding read_u32_le
read_back_u32 buf off v f h u =
    let same : length (splice buf off (to_le_bytes_u32 v)) ≡ length buf =
      length-splice buf off (to_le_bytes_u32 v) h in
    let value : v % 256 + v / 256 % 256 * 256 + v / 65536 % 256 * 65536 + v / 2 ^ 24 % 256 * 2 ^ 24
        ≡ v =
      omega arith in
    rw
      (
        slice-ok 4 (splice buf off (to_le_bytes_u32 v)) off (omega (arith, same))
            (omega (arith, same)),
        window-splice_self buf off (to_le_bytes_u32 v) h,
      )
      (ap ok value)

window :
    (buf : List ℕ) (off : ℕ) (src : List ℕ) (at n : ℕ)
    → off + length src ≤ length buf
    → (at + n ≤ off) ⊎ (off + length src ≤ at)
    → take n (drop at (splice buf off src)) ≡ take n (drop at buf)
window buf off src at n h (inl before) = window-splice_before buf off src at n before h
window buf off src at n h (inr after) = ap (take n) (drop-splice_after buf off src at after h)

pub slice_apart :
    (buf : List ℕ) (off : ℕ) (src : List ℕ) (at n : ℕ)
    → Fits buf
    → off + length src ≤ length buf
    → (at + n ≤ off) ⊎ (off + length src ≤ at)
    → slice n (splice buf off src) at ≡ slice n buf at
slice_apart buf off src at n f h apart = elim (dec_le (at + n) (length buf)) [
  | yes p ↦
      slice-ok n (splice buf off src) at (omega (arith, same)) (omega (arith, same))
      ∙ ap ok (window buf off src at n h apart)
      ∙ sym (slice-ok n buf at f p)
  | no p ↦
      slice-err n (splice buf off src) at (omega (arith, same))
      ∙ sym (slice-err n buf at (omega arith))
]
  where
    same : length (splice buf off src) ≡ length buf
    same = length-splice buf off src h

pub read_u16_le-err :
    (buf : List ℕ) (off : ℕ) → length buf < off + 2 → read_u16_le buf off ≡ err decode
unfolding read_u16_le
read_u16_le-err buf off h = rw (slice-err 2 buf off h)

-- A sixteen-bit field reads back as it was written; the buffer keeps its length, and each window
-- that does not meet the field reads as before.
put_u16_le-read_u16_le :
    (buf : List ℕ) (off v : ℕ)
    → Fits buf
    → off + 2 ≤ length buf
    → IsU16 v
    → (after : List ℕ) × (put_u16_le buf off v ≡ ok after)
      × (read_u16_le after off ≡ ok v)
      × (length after ≡ length buf)
      × ((at n : ℕ) → (at + n ≤ off) ⊎ (off + 2 ≤ at) → slice n after at ≡ slice n buf at)
put_u16_le-read_u16_le buf off v f h u =
    let after : List ℕ = splice buf off (to_le_bytes_u16 v) in
    let same : length after ≡ length buf = length-splice buf off (to_le_bytes_u16 v) h in
    (
      after,
      unfold put_u16_le in put_slice-ok buf off (to_le_bytes_u16 v) f h,
      read_back buf off v f h u,
      same,
      λ at n apart. slice_apart buf off (to_le_bytes_u16 v) at n f h apart,
    )

-- The same for a field of 32 bits.
put_u32_le-read_u32_le :
    (buf : List ℕ) (off v : ℕ)
    → Fits buf
    → off + 4 ≤ length buf
    → IsU32 v
    → (after : List ℕ) × (put_u32_le buf off v ≡ ok after)
      × (read_u32_le after off ≡ ok v)
      × (length after ≡ length buf)
      × ((at n : ℕ) → (at + n ≤ off) ⊎ (off + 4 ≤ at) → slice n after at ≡ slice n buf at)
put_u32_le-read_u32_le buf off v f h u =
    let after : List ℕ = splice buf off (to_le_bytes_u32 v) in
    (
      after,
      unfold put_u32_le in put_slice-ok buf off (to_le_bytes_u32 v) f h,
      read_back_u32 buf off v f h u,
      length-splice buf off (to_le_bytes_u32 v) h,
      λ at n apart. slice_apart buf off (to_le_bytes_u32 v) at n f h apart,
    )
