-- ===== src/Init.antt =====
-- Bringing a controller up and down: tools/lib/ctrl_access.c, and `wait_ready`, `controller_init` and
-- `controller_deinit` of tools/nvme.c.
use fioplugin.Prelude.{
  ◌%◌, ℕ, zero, suc, ◌+◌, ◌-◌, ◌*◌, ◌^◌, bit_and, bit_or, Bool, true, false, ◌&&◌, ◌||◌, Option,
  none, some, ◌∷◌, ltb, leb, ◌==◌, ◌!=◌, if◌then◌else◌, ⊤,
}
use fioplugin.Prelude.Word.{u16, u32, u64, ◌<<<◌}
use fioplugin.Machine.{Event, Log, Platform}
use fioplugin.Nvme.{Controller, Mem, State, page_size}
use fioplugin.Call.{Call, ◌>>=◌, ◌>>◌, pure, get, modify, fail_if, or_undo}
use fioplugin.Regs.{
  controller_reg_read32, controller_reg_write32, nvme_reg_read64, nvme_reg_write64, reg_cap, reg_cc,
  reg_csts, reg_aqa, reg_asq, reg_acq, ready_timeout_ms, cap_mpsmin, round_up_page,
  admin_sq_tail_doorbell, admin_cq_head_doorbell,
}
use fioplugin.Dma.{
  nvme_alloc_dma_mem, nvme_release_controller_dma, nvme_close_dma, free_admin_sq, free_admin_cq,
}
pub mod Down
pub mod TakeDown
pub mod Failure
pub mod BringUp
pub mod Enable
pub mod Ready

abbrev pub bar0_map_size : ℕ
bar0_map_size = 0x4000

abbrev pub admin_q_depth : ℕ
admin_q_depth = 32

abbrev pub cc_en : ℕ
cc_en = 1

abbrev pub cc_mps_shift : ℕ
cc_mps_shift = 7

abbrev pub cc_iosqes : ℕ
cc_iosqes = 6 <<< 16

abbrev pub cc_iocqes : ℕ
cc_iocqes = 4 <<< 20

abbrev pub csts_rdy : ℕ
csts_rdy = 1

abbrev pub invalid32 : ℕ
invalid32 = 0xffff_ffff

abbrev pub invalid64 : ℕ
invalid64 = 0xffff_ffff_ffff_ffff

unfoldable pub pci_bdf_is_valid : (dev func : ℕ) → Bool
pci_bdf_is_valid dev func = ltb dev 32 && ltb func 8

-- The path of a device is shorter than its buffer.
unfoldable pub open_pci_bar0 : Platform → (bus dev func : ℕ) → Log → Option ℕ × Log
open_pci_bar0 p bus dev func log =
    if pci_bdf_is_valid dev func
    then (p.open_bar0 log bus dev func, Event.open_bar0 bus dev func ∷ log)
    else (none, log)

-- 0 is `NULL`.
unfoldable pub controller_bar0_map : Platform → (bus dev func size : ℕ) → Log → ℕ × Log
controller_bar0_map p bus dev func size log =
    if size == 0
    then (0, log)
    else let (fd, opened) = open_pci_bar0 p bus dev func log in
      elim fd [
        | none ↦ (0, opened)
        | some fd ↦
            let mapped : Log = Event.close fd ∷ Event.mmap size fd ∷ opened in
            elim (p.mmap opened size fd) [ none ↦ (0, mapped) | some virt ↦ (virt, mapped) ]
      ]

-- The result is `true` for 0.
unfoldable pub controller_bar0_unmap : Platform → (bar0 sz : ℕ) → Log → Bool × Log
controller_bar0_unmap p bar0 sz log =
    if bar0 == 0 || sz == 0
    then (false, log)
    else (p.munmap log bar0 sz, Event.munmap bar0 sz ∷ log)

unfoldable pub nvme_unmap_controller_bar0 : Platform → State → State
nvme_unmap_controller_bar0 p s =
    if s.ctrl.bar0_virt == 0
    then s
    else (let (_, log) = controller_bar0_unmap p s.ctrl.bar0_virt bar0_map_size s.log in
        record s { ctrl = record s.ctrl { bar0_virt = 0 }; log = log })

abbrev pub sleep_1ms : Call ⊤
sleep_1ms = modify (λ s. record s { log = Event.sleep ∷ s.log })

-- A round of the loop, after the read: `again` is the rest of the loop.
unfoldable pub check_csts : (ready : Bool) → (again : Call ⊤) → Option ℕ × State → Option ⊤ × State
check_csts ready again (none, s) = (none, s)
check_csts ready again (some csts, s) =
    if csts == invalid32
    then (none, s)
    else if bit_and csts csts_rdy == (if ready then csts_rdy else 0)
    then (some tt, s)
    else again s

-- `for (elapsed = 0u; elapsed < timeout_ms; ++elapsed)`, by the rounds left.
unfoldable pub wait_ready : Platform → (ready : Bool) → (left : ℕ) → Call ⊤
wait_ready p ready zero s = (none, s)
wait_ready p ready (suc left) s =
    check_csts ready (sleep_1ms >> wait_ready p ready left) (controller_reg_read32 p reg_csts s)

abbrev pub memset : (of : State → Mem) → Call ⊤
memset of =
    modify (λ s. record s { log = Event.zero_fill (of s).user_virtaddr (of s).size ∷ s.log })

unfoldable pub map_bar0 : Platform → Call ⊤
map_bar0 p s =
    if s.ctrl.bar0_virt != 0
    then (some tt, s)
    else (let (virt, log) =
          controller_bar0_map p (s.ctrl.bus % 2 ^ 8) (s.ctrl.dev % 2 ^ 8) (s.ctrl.func % 2 ^ 8)
            bar0_map_size s.log in
        (
          if virt == 0 then none else some tt,
          record s { ctrl = record s.ctrl { bar0_virt = virt }; log = log },
        ))

-- CAP, and that it is usable.
unfoldable pub read_cap : Platform → Call ℕ
read_cap p = do
  cap ← nvme_reg_read64 p reg_cap
  fail_if (cap == 0)
  fail_if (cap == invalid64)
  fail_if (ready_timeout_ms cap == 0)
  pure cap

unfoldable pub alloc_admin_queues : Platform → Call ⊤
alloc_admin_queues p = do
  nvme_alloc_dma_mem p (round_up_page (64 * admin_q_depth))
      (λ m s. record s { ctrl = record s.ctrl { admin_sq_mem = m } })
  nvme_alloc_dma_mem p (round_up_page (16 * admin_q_depth))
      (λ m s. record s { ctrl = record s.ctrl { admin_cq_mem = m } })
  memset (λ s. s.ctrl.admin_sq_mem)
  memset (λ s. s.ctrl.admin_cq_mem)

-- `cc &= ~NVME_CC_EN`, if it is set
unfoldable pub disable : Platform → (timeout_ms cc : ℕ) → Call ⊤
disable p timeout_ms cc =
    if bit_and cc cc_en != 0
    then (do controller_reg_write32 reg_cc (bit_and cc 0xffff_fffe); wait_ready p false timeout_ms)
    else pure tt

abbrev pub enable_cc : ℕ → ℕ
enable_cc mpsmin =
    bit_or (bit_or (bit_or (u32 (mpsmin <<< cc_mps_shift)) cc_iosqes) cc_iocqes) cc_en

unfoldable pub enable : Platform → (cap : ℕ) → Call ⊤
enable p cap = do
  controller_reg_write32 reg_aqa (bit_or (admin_q_depth - 1) (u32 ((admin_q_depth - 1) <<< 16)))
  asq ← get (λ s. s.ctrl.admin_sq_mem.dma_addr)
  nvme_reg_write64 reg_asq asq
  acq ← get (λ s. s.ctrl.admin_cq_mem.dma_addr)
  nvme_reg_write64 reg_acq acq
  controller_reg_write32 reg_cc (enable_cc (cap_mpsmin cap))
  wait_ready p true (ready_timeout_ms cap)

-- The state of a controller that has come up.
unfoldable pub initialised : (cap : ℕ) → State → State
initialised cap s = record s {
  ctrl = record s.ctrl {
    admin_sq_tail = 0;
    admin_cq_head = 0;
    admin_cq_phase = 1;
    admin_sq_phys_addr = s.ctrl.admin_sq_mem.dma_addr;
    admin_cq_phys_addr = s.ctrl.admin_cq_mem.dma_addr;
    admin_sq_virt_addr = s.ctrl.admin_sq_mem.user_virtaddr;
    admin_cq_virt_addr = s.ctrl.admin_cq_mem.user_virtaddr;
    admin_sq_depth = admin_q_depth;
    admin_cq_depth = admin_q_depth;
    admin_sq_tail_db = admin_sq_tail_doorbell cap;
    admin_cq_head_db = admin_cq_head_doorbell cap;
    lba_shift = if s.ctrl.lba_shift == 0 then 9 else s.ctrl.lba_shift;
  };
}

-- Everything after CAP, whose errors all release the DMA memory and BAR0.
unfoldable pub start : Platform → (cap : ℕ) → Call ⊤
start p cap = do
  alloc_admin_queues p
  cc ← controller_reg_read32 p reg_cc
  fail_if (cc == invalid32)
  disable p (ready_timeout_ms cap) cc
  enable p cap
  modify (initialised cap)

unfoldable pub controller_init : Platform → Call ⊤
controller_init p = do
  map_bar0 p
  cap ← or_undo (nvme_unmap_controller_bar0 p) (read_cap p)
  or_undo (λ s. nvme_release_controller_dma (nvme_unmap_controller_bar0 p s)) (start p cap)

-- The attempt to disable the controller, whose outcome is not used.
unfoldable pub stop : Platform → Call ⊤
stop p = do
  cap ← nvme_reg_read64 p reg_cap
  fail_if (ready_timeout_ms cap == 0)
  cc ← controller_reg_read32 p reg_cc
  disable p (ready_timeout_ms cap) cc

abbrev pub take_down : Platform → State → State
take_down p s =
    if s.ctrl.bar0_virt == 0 then s else (let (_, s') = stop p s in nvme_unmap_controller_bar0 p s')

unfoldable pub controller_deinit : Platform → State → State
controller_deinit p s =
    let t = nvme_close_dma (free_admin_cq (free_admin_sq (take_down p s))) in
    record t {
      ctrl = record t.ctrl {
        admin_sq_tail = 0;
        admin_cq_head = 0;
        admin_cq_phase = 0;
        admin_sq_phys_addr = 0;
        admin_cq_phys_addr = 0;
        admin_sq_virt_addr = 0;
        admin_cq_virt_addr = 0;
        admin_sq_depth = 0;
        admin_cq_depth = 0;
        admin_sq_tail_db = 0;
        admin_cq_head_db = 0;
        bar0_phys = 0;
        size = 0;
      };
    }
