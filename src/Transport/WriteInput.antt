-- ===== src/Transport/WriteInput.antt =====
-- crates/controller-core/src/transport/write_input.rs: input checks and chunk planning.
pub mod Plans
use b.Shared.{
  ℕ, zero, suc, ◌+◌, ◌-◌, ◌*◌, ◌/◌, ◌%◌, min, ltb, leb, ◌==◌, ◌||◌, not, if◌then◌else◌, List, [],
  ◌∷◌, none, Option, some, length, Error, write, Result, ok, err, ◌>>=◌, ◌>>◌, refuse_if, ok_or,
}
use b.Protocol.WireWrite.{macro_chunk_len, macro_page_len}
use b.Model.MacroSlot.{MacroSlot}

abbrev pub profile_chunk : ℕ
profile_chunk = 45

abbrev pub patch_packets : ℕ
patch_packets = 2

-- `Error::write(…)`, tied to no chunk
abbrev pub write_error : Error
write_error = write none 0

unfoldable pub check_profile_blob : List ℕ → ℕ → Result (Unit {0})
check_profile_blob blob size = if length blob == size then ok tt else err write_error

unfoldable pub check_patch : List ℕ → Result (Unit {0})
check_patch bytes = if length bytes == 0 then err write_error else ok tt

-- `u16::try_from`
abbrev pub try_u16 : ℕ → Option ℕ
try_u16 v = if leb v 65535 then some v else none

-- `u16::checked_mul` by the page length
unfoldable pub macro_flash_base : MacroSlot → Result ℕ
macro_flash_base m = ok_or (try_u16 (m.get * macro_page_len)) write_error

unfoldable pub macro_total_len : ℕ → MacroSlot → Result ℕ
unfolding macro_flash_base
macro_total_len stream_len m = do
  base ← macro_flash_base m
  ok_or (try_u16 (stream_len + base)) write_error

unfoldable pub check_macro_stream : List ℕ → MacroSlot → Result (Unit {0})
unfolding macro_total_len
check_macro_stream stream m = do
  let len = length stream
  refuse_if (len == 0 || not (len % macro_chunk_len == 0)) write_error
  refuse_if (ltb macro_page_len len) write_error
  total ← macro_total_len len m
  ok tt

-- The chunk that begins at `off`, when the offset fits 16 bits.
unfoldable pub plan_from : ℕ → ℕ → ℕ → List (ℕ × ℕ)
plan_from size off zero = []
plan_from size off (suc left) =
    let rest = plan_from size (off + profile_chunk) left in
    elim (try_u16 off) [ none ↦ rest | some off16 ↦ (off16, min profile_chunk (size - off)) ∷ rest ]

-- `(0..size).step_by(45)` has `size / 45` offsets, rounded up.
unfoldable pub plan_profile_chunks : ℕ → List (ℕ × ℕ)
unfolding plan_from
plan_profile_chunks size = plan_from size 0 ((size + profile_chunk - 1) / profile_chunk)
