-- ===== src/Transport/HidrawWrite/Patch.antt =====
-- A patch is sent twice and writes its bytes once.
use b.Shared.{ℕ, ◌+◌, ◌≤◌, ◌≡◌, ap₂, ◌∙◌, sym, List, length, ◌++◌, arith, drop-drop}
use b.Protocol.Bytes.{splice}
use b.Protocol.Bytes.Windows.{window-splice_before, drop-splice_after}

-- Copying the same bytes to the same place again changes nothing.
pub splice-splice :
    (buf : List ℕ) (off : ℕ) (src : List ℕ)
    → off + length src ≤ length buf
    → splice (splice buf off src) off src ≡ splice buf off src
splice-splice buf off src h =
    ap₂ (λ a z. a ++ (src ++ z)) (window-splice_before buf off src 0 off (omega arith) h)
      (drop-drop (length src) off (splice buf off src)
        ∙ drop-splice_after buf off src (off + length src) (omega arith) h
        ∙ sym (drop-drop (length src) off buf))
