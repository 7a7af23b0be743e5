-- ===== src/Admin.antt =====
-- The commands of the admin queue, of tools/nvme.c: `submit_admin_command`,
-- `submit_identify_namespace` and `wait_admin_completion`.
use fioplugin.Prelude.{
  ℕ, zero, suc, ◌+◌, ◌-◌, ◌*◌, ◌%◌, ◌^◌, bit_and, bit_or, bit_xor, Bool, true, false, ◌||◌, ◌&&◌,
  Option, none, some, List, [], ◌∷◌, ltb, leb, ◌==◌, ◌!=◌, if◌then◌else◌, not, ⊤,
}
use fioplugin.Prelude.Word.{u16, u32, u64, ◌<<<◌, ◌>>>◌}
use fioplugin.Machine.{Event, Log, Platform}
use fioplugin.Machine.Fields.{Field, assign}
use fioplugin.Machine.Reads.{look16}
use fioplugin.Nvme.{Controller, NvmeData, Mem, State, page_size}
use fioplugin.Call.{Call, ◌>>=◌, ◌>>◌, pure, get, modify, fail_if, or_undo, and_then}
use fioplugin.Regs.{
  controller_reg_write32, nvme_reg_read64, reg_cap, ready_timeout_ms, cap_mqes_entries,
  round_up_page, io_sq_tail_doorbell, io_cq_head_doorbell,
}
use fioplugin.Dma.{nvme_alloc_dma_mem, free_dma}
use fioplugin.Init.{memset, sleep_1ms}
use fioplugin.Submit.{dword}
use fioplugin.Poll.{cid_at, psf_at, cq_entry_size}
pub mod Ring
pub mod Frame
pub mod Buffers
pub mod Announce
pub mod Served
mod Tests

-- `c->admin_sq_tail++`, the barrier and the doorbell
unfoldable pub ring_admin : Call ⊤
ring_admin s =
    let next : ℕ = u16 (s.ctrl.admin_sq_tail + 1) in
    let tail : ℕ = if next == s.ctrl.admin_sq_depth then 0 else next in
    controller_reg_write32 s.ctrl.admin_sq_tail_db tail
      (record s { ctrl = record s.ctrl { admin_sq_tail = tail }; log = Event.fence ∷ s.log })

-- `memset` of the entry at the tail, and its dwords.
unfoldable pub write_admin : List Field → State → State
write_admin dwords s =
    let cmd : ℕ = s.ctrl.admin_sq_virt_addr + 64 * s.ctrl.admin_sq_tail in
    record s { log = assign cmd dwords (Event.zero_fill cmd 64 ∷ s.log) }

unfoldable pub submit_admin_command : (opcode nsid prp1 cdw10 cdw11 cmd_id : ℕ) → Call ⊤
submit_admin_command opcode nsid prp1 cdw10 cdw11 cmd_id = do
  modify (
      write_admin (
        dword 0 (bit_or opcode (u32 (cmd_id <<< 16)))
        ∷ dword 1 nsid
        ∷ dword 6 (u32 prp1)
        ∷ dword 7 (u32 (prp1 >>> 32))
        ∷ dword 10 cdw10
        ∷ dword 11 cdw11
        ∷ []))
  ring_admin

abbrev pub identify_opcode : ℕ
identify_opcode = 0x06

abbrev pub cns_namespace : ℕ
cns_namespace = 0x00

unfoldable pub submit_identify_namespace : (identify_phys cmd_id : ℕ) → Call ⊤
submit_identify_namespace identify_phys cmd_id = do
  nsid ← get (λ s. s.ctrl.nsid)
  modify (
      write_admin (
        dword 0 (bit_or identify_opcode (u32 (cmd_id <<< 16)))
        ∷ dword 1 nsid
        ∷ dword 6 (u32 identify_phys)
        ∷ dword 7 (u32 (identify_phys >>> 32))
        ∷ dword 10 cns_namespace
        ∷ []))
  ring_admin

-- A volatile 16-bit read at an offset of the entry at the head.
unfoldable pub look_cqe : Platform → (offset : ℕ) → Call ℕ
look_cqe p offset s =
    let cqe : ℕ = s.ctrl.admin_cq_virt_addr + cq_entry_size * s.ctrl.admin_cq_head in
    let (v, log) = look16 p (cqe + offset) s.log in (some v, record s { log = log })

-- `c->admin_cq_head++`, with the phase turned at the end of the queue
unfoldable pub next_admin_cqe : State → State
next_admin_cqe s =
    let next : ℕ = u16 (s.ctrl.admin_cq_head + 1) in
    if next == s.ctrl.admin_cq_depth
    then record s {
      ctrl = record s.ctrl { admin_cq_head = 0; admin_cq_phase = bit_xor s.ctrl.admin_cq_phase 1 };
    }
    else record s { ctrl = record s.ctrl { admin_cq_head = next } }

-- The body of the `if (cqe->p == c->admin_cq_phase)`: `sc` and `sct` are bit-fields of `psf`.
unfoldable pub take_admin_cqe : Platform → (cmd_id : ℕ) → Call ⊤
take_admin_cqe p cmd_id = do
  cid ← look_cqe p cid_at
  sc ← look_cqe p psf_at
  sct ← look_cqe p psf_at
  fail_if (cid != cmd_id)
  modify next_admin_cqe
  db ← get (λ s. s.ctrl.admin_cq_head_db)
  head ← get (λ s. s.ctrl.admin_cq_head)
  controller_reg_write32 db head
  fail_if (bit_and (sct >>> 9) 0x7 != 0 || bit_and (sc >>> 1) 0xff != 0)

-- `for (elapsed = 0u; elapsed < timeout_ms; ++elapsed)`, by the rounds left.
unfoldable pub wait_admin_completion : Platform → (cmd_id left : ℕ) → Call ⊤
wait_admin_completion p cmd_id zero s = (none, s)
wait_admin_completion p cmd_id (suc left) s =
    let (psf, s') = look_cqe p psf_at s in
    let again = wait_admin_completion p cmd_id left (record s' { log = Event.sleep ∷ s'.log }) in
    elim psf [
      | none ↦ (none, s')
      | some psf ↦
          if bit_and psf 1 == s.ctrl.admin_cq_phase then take_admin_cqe p cmd_id s' else again
    ]

abbrev pub admin_cmd_timeout_ms : ℕ
admin_cmd_timeout_ms = 60000

-- `c->admin_cmd_id++`
unfoldable pub next_admin_cmd_id : Call ℕ
next_admin_cmd_id s = (
  some s.ctrl.admin_cmd_id,
  record s { ctrl = record s.ctrl { admin_cmd_id = u16 (s.ctrl.admin_cmd_id + 1) } },
)

-- A command and its completion.
unfoldable pub admin_command : Platform → (opcode prp1 cdw10 cdw11 : ℕ) → Call ⊤
admin_command p opcode prp1 cdw10 cdw11 = do
  cmd_id ← next_admin_cmd_id
  submit_admin_command opcode 0 prp1 cdw10 cdw11 cmd_id
  wait_admin_completion p cmd_id admin_cmd_timeout_ms

abbrev pub no_admin_queue : State → Bool
no_admin_queue s =
    s.ctrl.bar0_virt == 0 || (s.ctrl.admin_sq_virt_addr == 0 || s.ctrl.admin_cq_virt_addr == 0)
