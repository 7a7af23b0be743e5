-- ===== src/Regs/Doorbells.antt =====
-- The doorbells of the queues.
use fioplugin.Prelude.{ℕ, ◌+◌, ◌*◌, ◌^◌, ◌%◌, ◌/◌, ◌≤◌, ◌≡◌, refl, arith}
use native.Mathlib.Nat.{pow-le-pow_right}
use fioplugin.Prelude.Bits.{bit_and-mask}
use fioplugin.Prelude.Word.{u32, ◌<<<◌}
use fioplugin.Regs.{
  cap_dstrd, admin_sq_tail_doorbell, admin_cq_head_doorbell, io_sq_tail_doorbell,
  io_cq_head_doorbell,
}

-- The stride of the doorbells, in bytes, that CAP.DSTRD gives.
abbrev pub stride : ℕ → ℕ
stride cap = 4 * 2 ^ (cap / 2 ^ 32 % 16)

cap_dstrd-field : (cap : ℕ) → cap_dstrd cap ≡ cap / 2 ^ 32 % 16
unfolding cap_dstrd
cap_dstrd-field cap = omega (arith, bit_and-mask 4 (cap / 2 ^ 32) 15 refl)

stride-word : (cap : ℕ) → u32 (4 <<< cap_dstrd cap) ≡ stride cap
stride-word cap = rw (cap_dstrd-field cap) (
    omega (
      arith,
      pow-le-pow_right {n = 2} (omega arith) {i = cap / 2 ^ 32 % 16} {j = 15} (omega arith),
    ))

-- The doorbells stand where the NVMe specification puts them: that of the tail of queue `q` at
-- 0x1000 + 2q * (4 << DSTRD), that of the head at 0x1000 + (2q + 1) * (4 << DSTRD), the admin queue
-- being queue 0, as long as those of queue `q` end below 2^32.
pub doorbells-at :
    (cap qid : ℕ)
    → 4096 + (2 * qid + 2) * stride cap ≤ 2 ^ 32
    → (admin_sq_tail_doorbell cap ≡ 4096 + 2 * 0 * stride cap)
      × (admin_cq_head_doorbell cap ≡ 4096 + (2 * 0 + 1) * stride cap)
      × (io_sq_tail_doorbell cap qid ≡ 4096 + 2 * qid * stride cap)
      × (io_cq_head_doorbell cap qid ≡ 4096 + (2 * qid + 1) * stride cap)
unfolding admin_sq_tail_doorbell admin_cq_head_doorbell io_sq_tail_doorbell io_cq_head_doorbell
doorbells-at cap qid h = rw (stride-word cap) (omega arith, grind arith, grind arith, grind arith)
