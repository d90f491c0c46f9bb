-- ===== src/Devices/Pro3/Edit/Regions.antt =====
-- crates/controller-core/src/devices/pro3/edit.rs: the region that `drop_macros` writes to.
use b.Shared.{ℕ, zero, suc, ◌+◌, ◌*◌, ◌≡◌, List, [], ◌∷◌, ok, arith}
use b.Protocol.Bytes.{read_u32_le, put_u32_le, to_le_bytes_u32}
use b.Protocol.Bytes.Frames.{
  region, Framed, Framed-value, Framed-twice, Framed-widen, Framed-nothing, put_slice-within,
}
use b.Devices.Pro3.Edit.{drop_from}

pub drop_from-Framed :
    (left index base dropped : ℕ) (buf : List ℕ)
    → index + left ≡ 4
    → Framed (region base 208 ∷ []) buf (drop_from left index base dropped buf)
unfolding drop_from put_u32_le
drop_from-Framed zero index base dropped buf e =
    Framed-widen [] (region base 208 ∷ []) buf (ok buf) (λ at n o. tt) (Framed-nothing buf)
drop_from-Framed (suc left) index base dropped buf e =
    Framed-value (region base 208 ∷ []) buf (read_u32_le buf (base + index * 52 + 40)) _ (λ key_map.
      Framed-twice (region base 208 ∷ []) buf _ _
        (put_slice-within buf (base + index * 52 + 40) (to_le_bytes_u32 _) base 208 (omega arith)
          (omega arith))
        (λ out. drop_from-Framed left (index + 1) base dropped out (omega arith)))
