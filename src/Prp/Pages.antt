-- ===== src/Prp/Pages.antt =====
-- The number of pages that a transfer touches, and the first page behind its start.
use fioplugin.Prelude.{ℕ, ◌+◌, ◌-◌, ◌*◌, ◌/◌, ◌%◌, ◌^◌, ◌<◌, ◌≡◌, refl, ◌∙◌, ap, arith}
use fioplugin.Prelude.Bits.{bit_and-mask, bit_and-shifted}
use fioplugin.Prelude.Word.{u64}
use fioplugin.Prp.{page_offset, page_align_up, page_count}

pub page_offset-mod : (addr : ℕ) → page_offset addr ≡ addr % 4096
unfolding page_offset
page_offset-mod addr = bit_and-mask 12 addr 4095 refl

-- Rounding up to a page, as long as the sum does not wrap.
pub page_align_up-mul :
    (addr : ℕ) → addr + 4095 < 2 ^ 64 → page_align_up addr ≡ (addr + 4095) / 4096 * 4096
unfolding page_align_up
page_align_up-mul addr h =
    bit_and-shifted 12 (u64 (addr + 4095)) (2 ^ 52 - 1)
    ∙ ap (λ (t : ℕ). t * 4096)
        (bit_and-mask 52 (u64 (addr + 4095) / 4096) (2 ^ 52 - 1) refl ∙ omega arith)

pub page_count-div :
    (addr size : ℕ)
    → addr % 4096 + size + 4095 < 2 ^ 64
    → page_count addr size ≡ (addr % 4096 + size + 4095) / 4096
unfolding page_count
page_count-div addr size h = rw (page_offset-mod addr) (omega arith)
