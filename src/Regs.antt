-- ===== src/Regs.antt =====
-- The registers of the controller, of tools/lib/ctrl_access.c and tools/nvme.c, and the fields of
-- CAP.
use fioplugin.Prelude.{
  ℕ, ◌+◌, ◌-◌, ◌*◌, ◌^◌, bit_and, bit_or, Option, none, some, ◌∷◌, ◌==◌, ◌!=◌, ◌||◌, if◌then◌else◌,
  ⊤,
}
use fioplugin.Prelude.Word.{u16, u32, u64, ◌<<<◌, ◌>>>◌}
use fioplugin.Machine.{Event, Log, Platform}
use fioplugin.Nvme.{State, page_size}
use fioplugin.Call.{Call, ◌>>=◌, ◌>>◌, pure}
pub mod Access
pub mod Doorbells

-- Every caller passes `c->bar0_virt`, and a place for the value.
unfoldable pub controller_reg_read32 : Platform → (offset : ℕ) → Call ℕ
controller_reg_read32 p offset s =
    let reg : ℕ = s.ctrl.bar0_virt + offset in
    if s.ctrl.bar0_virt == 0 || bit_and offset 3 != 0
    then (none, s)
    else (some (u32 (p.reg s.log reg)), record s { log = Event.reg_load reg ∷ s.log })

unfoldable pub controller_reg_write32 : (offset value : ℕ) → Call ⊤
controller_reg_write32 offset value s =
    if s.ctrl.bar0_virt == 0 || bit_and offset 3 != 0
    then (none, s)
    else (some tt, record s { log = Event.reg_store (s.ctrl.bar0_virt + offset) value ∷ s.log })

unfoldable pub nvme_reg_read64 : Platform → (offset : ℕ) → Call ℕ
nvme_reg_read64 p offset = do
  lo ← controller_reg_read32 p offset
  hi ← controller_reg_read32 p (u32 (offset + 4))
  pure (bit_or (u64 (hi <<< 32)) lo)

unfoldable pub nvme_reg_write64 : (offset value : ℕ) → Call ⊤
nvme_reg_write64 offset value = do
  controller_reg_write32 offset (u32 value)
  controller_reg_write32 (u32 (offset + 4)) (u32 (value >>> 32))

abbrev pub reg_cap : ℕ
reg_cap = 0x00

abbrev pub reg_cc : ℕ
reg_cc = 0x14

abbrev pub reg_csts : ℕ
reg_csts = 0x1c

abbrev pub reg_aqa : ℕ
reg_aqa = 0x24

abbrev pub reg_asq : ℕ
reg_asq = 0x28

abbrev pub reg_acq : ℕ
reg_acq = 0x30

abbrev pub doorbell_base : ℕ
doorbell_base = 0x1000

unfoldable pub ready_timeout_ms : ℕ → ℕ
ready_timeout_ms cap = u32 (u32 (bit_and (cap >>> 24) 0xff) * 500)

unfoldable pub cap_mqes_entries : ℕ → ℕ
cap_mqes_entries cap = u32 (u32 (bit_and cap 0xffff) + 1)

unfoldable pub cap_mpsmin : ℕ → ℕ
cap_mpsmin cap = u32 (bit_and (cap >>> 48) 0xf)

unfoldable pub cap_dstrd : ℕ → ℕ
cap_dstrd cap = u32 (bit_and (cap >>> 32) 0xf)

-- `~(NVME_PAGE_SIZE - 1u)` is a 32-bit number, so that the upper half of the size is lost.
unfoldable pub round_up_page : ℕ → ℕ
round_up_page size = bit_and (u64 (size + page_size - 1)) (2 ^ 32 - page_size)

unfoldable pub admin_sq_tail_doorbell : ℕ → ℕ
admin_sq_tail_doorbell cap = doorbell_base

unfoldable pub admin_cq_head_doorbell : ℕ → ℕ
admin_cq_head_doorbell cap =
    let stride : ℕ = u32 (4 <<< cap_dstrd cap) in u32 (doorbell_base + stride)

unfoldable pub io_sq_tail_doorbell : (cap qid : ℕ) → ℕ
io_sq_tail_doorbell cap qid =
    let stride : ℕ = u32 (4 <<< cap_dstrd cap) in u32 (doorbell_base + u32 (2 * qid * stride))

unfoldable pub io_cq_head_doorbell : (cap qid : ℕ) → ℕ
io_cq_head_doorbell cap qid =
    let stride : ℕ = u32 (4 <<< cap_dstrd cap) in u32 (doorbell_base + u32 ((2 * qid + 1) * stride))
