-- ===== src/Submit/Transfer.antt =====
-- Reads and writes, from the call to the bytes of the buffer.
use fioplugin.Prelude.{
  ℕ, ◌+◌, ◌-◌, ◌*◌, ◌%◌, ◌^◌, ◌≤◌, ◌<◌, ◌≡◌, ◌≢◌, refl, sym, ◌∙◌, ap, ap₂, ◌⊎◌, arith, some, ◌∷◌,
}
use fioplugin.Prelude.Word.{u32, u64, ◌<<<◌}
use fioplugin.Machine.{Event, Log}
use fioplugin.Machine.Memory.{load}
use fioplugin.Machine.Fields.{assign, assign-zero_fill-frame}
use fioplugin.Nvme.{State}
use fioplugin.Prp.{Prps, setup_prps}
use fioplugin.Prp.Cover.{Fits, device_address, setup_prps-covers, prp1-setup_prps}
use fioplugin.Prp.Frame.{prp2-lt, prp2-listed}
use fioplugin.Submit.{
  command_fields, sqe_address, submit, submit_rw_command, nvme_read, nvme_write, next_cmd_id,
}
use fioplugin.Submit.Commands.{IsReady, Rings, submit-Rings, prps_at, rw_entry, device_address_same}
use fioplugin.Submit.Sqe.{Sqe, decode, decode-command_fields}

module _ {s : State} {virt_of : ℕ → ℕ} (opcode offset size addr : ℕ) (ready : IsReady s)
    (fits : Fits s.io virt_of s.io.io_sq_tail addr (u64 (size <<< s.ctrl.lba_shift))) where
  prps : Prps
  prps = setup_prps s.io s.io.io_sq_tail addr (u64 (size <<< s.ctrl.lba_shift)) s.log

  -- The memory at the doorbell.
  before : Log
  before =
      let cmd : ℕ = sqe_address s s.io.io_sq_tail in
      assign cmd
        (command_fields opcode (next_cmd_id s) s.ctrl.nsid prps.prp1 prps.prp2 offset
          (u32 (size + 2 ^ 64 - 1)))
        (Event.zero_fill cmd 64 ∷ prps.log)

  rw-Rings : Rings s (submit_rw_command s opcode offset size addr).0 before
  unfolding submit_rw_command before prps
  rw-Rings = submit-Rings s _ _

  rw-decode :
      opcode < 2 ^ 8
      → offset < 2 ^ 64
      → 0 < size
      → size ≤ 2 ^ 32
      → decode before (sqe_address s s.io.io_sq_tail)
        ≡ rw_entry opcode (next_cmd_id s) s.ctrl.nsid addr prps.prp2 offset (size - 1)
  unfolding before prps
  rw-decode h0 h1 h2 h3 =
      let e1 : prps.prp1 ≡ addr = prp1-setup_prps s.io s.io.io_sq_tail addr _ s.log in
      let e2 : u32 (size + 2 ^ 64 - 1) ≡ size - 1 = omega arith in
      decode-command_fields (sqe_address s s.io.io_sq_tail) prps.log opcode (next_cmd_id s)
        s.ctrl.nsid prps.prp1 prps.prp2 offset (u32 (size + 2 ^ 64 - 1)) h0 (omega arith)
        (omega arith) (omega (arith, e1)) (prp2-lt s.log fits) h1 (omega arith)
      ∙ ap₂ (λ p l. rw_entry opcode (next_cmd_id s) s.ctrl.nsid p prps.prp2 offset l) e1 e2

  -- The list that the controller follows from the entry is the one that `setup_prps` wrote.
  rw-list_kept :
      (j : ℕ)
      → j < 512
      → load 8 before (s.io.io_prp_list_virt_addr + s.io.io_sq_tail * 4096 + 8 * j)
        ≡ load 8 prps.log (s.io.io_prp_list_virt_addr + s.io.io_sq_tail * 4096 + 8 * j)
  unfolding before
  rw-list_kept j h =
      assign-zero_fill-frame 64 (sqe_address s s.io.io_sq_tail) 8 _ _ prps.log refl (omega arith)

  rw-prps :
      (i : ℕ)
      → opcode < 2 ^ 8
      → offset < 2 ^ 64
      → 0 < size
      → size ≤ 2 ^ 32
      → let bytes = u64 (size <<< s.ctrl.lba_shift) in
        device_address virt_of (prps_at before (sqe_address s s.io.io_sq_tail)) bytes i
        ≡ device_address virt_of prps bytes i
  unfolding prps
  rw-prps i h0 h1 h2 h3 =
      let e = rw-decode h0 h1 h2 h3 in
      let first : prps.prp1 ≡ addr = prp1-setup_prps s.io s.io.io_sq_tail addr _ s.log in
      device_address_same virt_of _ prps _ i (ap (λ (q : Sqe). q.prp1) e ∙ sym first)
        (ap (λ (q : Sqe). q.prp2) e)
        (λ j listed h.
          rw (prp2-listed s.log fits (omega (arith, first)), fits.mapped) (rw-list_kept j h))

-- What the doorbell of a read or write announces, `r` being the outcome of the call: an entry with
-- the given opcode, identifier, namespace, address and count, at the slot of the old tail, whose
-- region pages lead the controller to byte `i` of the buffer at `addr` for each `i`.
pub record Announces (s : State) (virt_of : ℕ → ℕ) (offset size addr opcode : ℕ) (r : State × ℕ)
    : Type 0 where
  pub cid : r.1 ≡ (s.io.io_cmd_id + 1) % 2 ^ 16
  pub log : Log
  pub rings : Rings s r.0 log
  pub prp2 : ℕ
  pub entry :
      decode log (sqe_address s s.io.io_sq_tail)
      ≡ rw_entry opcode r.1 s.ctrl.nsid addr prp2 offset (size - 1)
  pub covers :
      (i : ℕ)
      → i < u64 (size <<< s.ctrl.lba_shift)
      → device_address virt_of
          (prps_at log (sqe_address s s.io.io_sq_tail))
          (u64 (size <<< s.ctrl.lba_shift))
          i
        ≡ some (addr + i)

-- `nvme_read` and `nvme_write`
module _ {s : State} {virt_of : ℕ → ℕ} (offset size addr : ℕ) (ready : IsReady s)
    (fits : Fits s.io virt_of s.io.io_sq_tail addr (u64 (size <<< s.ctrl.lba_shift))) where
  cid-submit_rw_command :
      (opcode : ℕ) → (submit_rw_command s opcode offset size addr).1 ≡ next_cmd_id s
  unfolding submit_rw_command submit
  cid-submit_rw_command opcode = refl

  covers :
      (opcode i : ℕ)
      → i < u64 (size <<< s.ctrl.lba_shift)
      → (addr % 4096 ≢ 0) ⊎ (addr % 4096 + u64 (size <<< s.ctrl.lba_shift) ≤ 4096)
      → addr % 4096 + u64 (size <<< s.ctrl.lba_shift) ≤ 4096 * 513
      → device_address virt_of
          (prps opcode offset size addr ready fits)
          (u64 (size <<< s.ctrl.lba_shift))
          i
        ≡ some (addr + i)
  unfolding prps
  covers opcode = setup_prps-covers s.log fits

  rw-Announces :
      (opcode : ℕ)
      → opcode < 2 ^ 8
      → offset < 2 ^ 64
      → 0 < size
      → size ≤ 2 ^ 32
      → (addr % 4096 ≢ 0) ⊎ (addr % 4096 + u64 (size <<< s.ctrl.lba_shift) ≤ 4096)
      → addr % 4096 + u64 (size <<< s.ctrl.lba_shift) ≤ 4096 * 513
      → Announces s virt_of offset size addr opcode (submit_rw_command s opcode offset size addr)
  rw-Announces opcode h0 h1 h2 h3 at few = record {
    cid = cid-submit_rw_command opcode;
    log = before opcode offset size addr ready fits;
    rings = rw-Rings opcode offset size addr ready fits;
    prp2 = (prps opcode offset size addr ready fits).prp2;
    entry =
        rw-decode opcode offset size addr ready fits h0 h1 h2 h3
        ∙ ap
            (λ (c : ℕ).
              rw_entry opcode c s.ctrl.nsid addr (prps opcode offset size addr ready fits).prp2
                offset (size - 1))
            (sym (cid-submit_rw_command opcode));
    covers =
        λ i h. rw-prps opcode offset size addr ready fits i h0 h1 h2 h3 ∙ covers opcode i h at few;
  }

  -- From a state that is ready, with the slot's list mapped: `nvme_read` announces a read. At the
  -- doorbell the controller finds at the slot of the old tail an entry with the read opcode, the
  -- next identifier, the namespace, the block address and the count, and its region pages lead it to
  -- every byte of the buffer. The address is below 2^64, the count from 1 to 2^32, and the buffer
  -- does not begin at a page or lies in one page, and has at most 513 pages.
  pub nvme_read-Announces :
      offset < 2 ^ 64
      → 0 < size
      → size ≤ 2 ^ 32
      → (addr % 4096 ≢ 0) ⊎ (addr % 4096 + u64 (size <<< s.ctrl.lba_shift) ≤ 4096)
      → addr % 4096 + u64 (size <<< s.ctrl.lba_shift) ≤ 4096 * 513
      → Announces s virt_of offset size addr 2 (nvme_read s offset size addr)
  unfolding nvme_read
  nvme_read-Announces = rw-Announces 2 (omega arith)

  -- Under the same conditions `nvme_write` announces a write in the same way, with the write opcode.
  pub nvme_write-Announces :
      offset < 2 ^ 64
      → 0 < size
      → size ≤ 2 ^ 32
      → (addr % 4096 ≢ 0) ⊎ (addr % 4096 + u64 (size <<< s.ctrl.lba_shift) ≤ 4096)
      → addr % 4096 + u64 (size <<< s.ctrl.lba_shift) ≤ 4096 * 513
      → Announces s virt_of offset size addr 1 (nvme_write s offset size addr)
  unfolding nvme_write
  nvme_write-Announces = rw-Announces 1 (omega arith)
