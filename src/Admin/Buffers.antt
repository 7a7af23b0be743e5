-- ===== src/Admin/Buffers.antt =====
-- Allocations and reads of CAP keep the admin queues as they are.
use fioplugin.Prelude.{ℕ, true}
use fioplugin.Machine.{Platform}
use fioplugin.Nvme.{Controller, Mem, State}
use fioplugin.Regs.{nvme_reg_read64}
use fioplugin.Regs.Access.{read64-Meets}
use fioplugin.Dma.{nvme_alloc_dma_mem}
use fioplugin.Dma.Alloc.{alloc-Keeps}
use fioplugin.Admin.Ring.{InBounds, Ok, Keeps}

pub read64-Keeps : (p : Platform) (offset : ℕ) → Keeps (nvme_reg_read64 p offset)
read64-Keeps p offset = read64-Meets p offset (λ _ _ x. x) (λ _ _ x. x)

pub set_fd :
    (c : Controller) (fd : ℕ)
    → InBounds c
    → InBounds (record c { dma_fd = fd; dma_fd_opened = true })
set_fd c fd x = record {
  sq_depth = x.sq_depth;
  cq_depth = x.cq_depth;
  sq_tail = x.sq_tail;
  cq_head = x.cq_head;
  cq_phase = x.cq_phase;
}

-- `set` leaves the controller as it is.
pub alloc_mem-Keeps :
    (p : Platform) (size : ℕ) (set : Mem → State → State)
    → ((m : Mem) (s : State) → Ok s → Ok (set m s))
    → Keeps (nvme_alloc_dma_mem p size set)
alloc_mem-Keeps p size set h =
    alloc-Keeps p size set (λ s fd log x. set_fd s.ctrl fd x) (λ _ _ x. x) h
