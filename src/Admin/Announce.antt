-- ===== src/Admin/Announce.antt =====
-- What the controller finds in memory when the doorbell of the admin queue rings.
use fioplugin.Prelude.{
  ℕ, ◌+◌, ◌*◌, ◌%◌, ◌^◌, ◌≤◌, ◌<◌, ◌≡◌, ◌≢◌, refl, arith, some, List, [], ◌∷◌, bit_or, bit_and,
  ◌==◌, false, Option, ⊤, ne→==,
}
use fioplugin.Prelude.Word.{u16, u32, ◌<<<◌, ◌>>>◌}
use fioplugin.Prelude.Bits.{bit_or-fields'}
use fioplugin.Machine.{Event, Log}
use fioplugin.Machine.Memory.{load}
use fioplugin.Machine.Fields.{Field, assign, read_fields, load-assign-zero_fill}
use fioplugin.Nvme.{State}
use fioplugin.Call.{◌>>=◌, ◌>>◌, modify, get}
use fioplugin.Regs.{controller_reg_write32}
use fioplugin.Submit.{dword}
use fioplugin.Submit.Sqe.{Sqe, decode}
use fioplugin.Admin.{ring_admin, write_admin, submit_admin_command, submit_identify_namespace}
use fioplugin.Admin.Ring.{InBounds}

-- The dwords of `submit_admin_command`.
abbrev admin_fields : (opcode nsid prp1 cdw10 cdw11 cmd_id : ℕ) → List Field
admin_fields opcode nsid prp1 cdw10 cdw11 cmd_id =
    dword 0 (bit_or opcode (u32 (cmd_id <<< 16)))
    ∷ dword 1 nsid
    ∷ dword 6 (u32 prp1)
    ∷ dword 7 (u32 (prp1 >>> 32))
    ∷ dword 10 cdw10
    ∷ dword 11 cdw11
    ∷ []

abbrev pub admin_entry : (opcode nsid prp1 cdw10 cdw11 cmd_id : ℕ) → Sqe
admin_entry opcode nsid prp1 cdw10 cdw11 cmd_id = record {
  opcode = opcode;
  flags = 0;
  command_id = cmd_id;
  nsid = nsid;
  prp1 = prp1;
  prp2 = 0;
  cdw10 = cdw10;
  cdw11 = cdw11;
  cdw12 = 0;
}

module _ (a : ℕ) (log : Log) (opcode nsid prp1 cdw10 cdw11 cmd_id : ℕ) where
  part :
      (k at : ℕ) {v : ℕ}
      → at + k ≤ 64
      → read_fields (admin_fields opcode nsid prp1 cdw10 cdw11 cmd_id) k at (some 0) ≡ some v
      → load k
          (assign a (admin_fields opcode nsid prp1 cdw10 cdw11 cmd_id) (Event.zero_fill a 64 ∷ log))
          (a + at)
        ≡ v
  part k at h e = load-assign-zero_fill k a at 64 _ log h e

  decode-admin_fields :
      opcode < 2 ^ 8
      → nsid < 2 ^ 32
      → prp1 < 2 ^ 64
      → cdw10 < 2 ^ 32
      → cdw11 < 2 ^ 32
      → cmd_id < 2 ^ 16
      → decode
          (assign a (admin_fields opcode nsid prp1 cdw10 cdw11 cmd_id) (Event.zero_fill a 64 ∷ log))
          a
        ≡ admin_entry opcode nsid prp1 cdw10 cdw11 cmd_id
  decode-admin_fields h1 h2 h3 h4 h5 h6 = ground (
    arith,
    bit_or-fields' 16 opcode cmd_id,
    part 1 0 (omega arith) refl,
    part 1 1 (omega arith) refl,
    part 2 2 (omega arith) refl,
    part 4 4 (omega arith) refl,
    part 4 24 (omega arith) refl,
    part 4 28 (omega arith) refl,
    part 4 32 (omega arith) refl,
    part 4 36 (omega arith) refl,
    part 4 40 (omega arith) refl,
    part 4 44 (omega arith) refl,
    part 4 48 (omega arith) refl,
  )

abbrev identify_fields : (nsid phys cmd_id : ℕ) → List Field
identify_fields nsid phys cmd_id =
    dword 0 (bit_or 0x06 (u32 (cmd_id <<< 16)))
    ∷ dword 1 nsid
    ∷ dword 6 (u32 phys)
    ∷ dword 7 (u32 (phys >>> 32))
    ∷ dword 10 0
    ∷ []

module _ (a : ℕ) (log : Log) (nsid phys cmd_id : ℕ) where
  identify_part :
      (k at : ℕ) {v : ℕ}
      → at + k ≤ 64
      → read_fields (identify_fields nsid phys cmd_id) k at (some 0) ≡ some v
      → load k (assign a (identify_fields nsid phys cmd_id) (Event.zero_fill a 64 ∷ log)) (a + at)
        ≡ v
  identify_part k at h e = load-assign-zero_fill k a at 64 _ log h e

  decode-identify_fields :
      nsid < 2 ^ 32
      → phys < 2 ^ 64
      → cmd_id < 2 ^ 16
      → decode (assign a (identify_fields nsid phys cmd_id) (Event.zero_fill a 64 ∷ log)) a
        ≡ admin_entry 6 nsid phys 0 0 cmd_id
  decode-identify_fields h1 h2 h3 = ground (
    arith,
    bit_or-fields' 16 6 cmd_id,
    identify_part 1 0 (omega arith) refl,
    identify_part 1 1 (omega arith) refl,
    identify_part 2 2 (omega arith) refl,
    identify_part 4 4 (omega arith) refl,
    identify_part 4 24 (omega arith) refl,
    identify_part 4 28 (omega arith) refl,
    identify_part 4 32 (omega arith) refl,
    identify_part 4 36 (omega arith) refl,
    identify_part 4 40 (omega arith) refl,
    identify_part 4 44 (omega arith) refl,
    identify_part 4 48 (omega arith) refl,
  )

-- The doorbell of the new tail rings last, behind a barrier, and the controller finds the given
-- entry at the slot of the old tail.
pub record Announces (s : State) (sqe : Sqe) (r : Option ⊤ × State) : Type 0 where
  pub succeeds : r.0 ≡ some tt
  pub log : Log
  pub rings :
      r.1.log
      ≡ Event.reg_store (s.ctrl.bar0_virt + s.ctrl.admin_sq_tail_db) r.1.ctrl.admin_sq_tail
        ∷ Event.fence
        ∷ log
  pub tail : r.1.ctrl.admin_sq_tail ≡ (s.ctrl.admin_sq_tail + 1) % 32
  pub entry : decode log (s.ctrl.admin_sq_virt_addr + 64 * s.ctrl.admin_sq_tail) ≡ sqe

-- A controller whose doorbell can be written: BAR0 is mapped and the doorbell's offset a multiple of
-- 4.
pub record IsMapped (s : State) : Type 0 where
  pub bar0 : s.ctrl.bar0_virt ≢ 0
  pub doorbell : bit_and s.ctrl.admin_sq_tail_db 3 ≡ 0

module _ (s : State) (ok : InBounds s.ctrl) (mapped : IsMapped s) where
  written-Announces :
      (fields : List Field) (sqe : Sqe)
      → decode (write_admin fields s).log (s.ctrl.admin_sq_virt_addr + 64 * s.ctrl.admin_sq_tail)
        ≡ sqe
      → Announces s sqe ((modify (write_admin fields) >> ring_admin) s)
  unfolding modify ◌>>◌ ◌>>=◌ ring_admin controller_reg_write32 write_admin
  written-Announces fields sqe e =
      let next : ℕ = u16 (s.ctrl.admin_sq_tail + 1) in
      let there : (s.ctrl.bar0_virt == 0) ≡ false = ne→== _ _ mapped.bar0 in
      rw (there, mapped.doorbell)
        (record {
          succeeds = refl;
          log = (write_admin fields s).log;
          rings = refl;
          tail = ground (arith, ok.sq_depth, ok.sq_tail);
          entry = e;
        })

  -- With the admin queues in bounds, BAR0 mapped and arguments of their widths,
  -- `submit_admin_command` succeeds: the doorbell of the next tail rings last, behind a barrier, and
  -- the entry at the old tail is the command that was asked for, with zeros elsewhere.
  pub submit_admin_command-Announces :
      (opcode nsid prp1 cdw10 cdw11 cmd_id : ℕ)
      → opcode < 2 ^ 8
      → nsid < 2 ^ 32
      → prp1 < 2 ^ 64
      → cdw10 < 2 ^ 32
      → cdw11 < 2 ^ 32
      → cmd_id < 2 ^ 16
      → Announces s
          (admin_entry opcode nsid prp1 cdw10 cdw11 cmd_id)
          (submit_admin_command opcode nsid prp1 cdw10 cdw11 cmd_id s)
  unfolding submit_admin_command write_admin
  submit_admin_command-Announces opcode nsid prp1 cdw10 cdw11 cmd_id h1 h2 h3 h4 h5 h6 =
      written-Announces (admin_fields opcode nsid prp1 cdw10 cdw11 cmd_id) _
        (decode-admin_fields _ s.log opcode nsid prp1 cdw10 cdw11 cmd_id h1 h2 h3 h4 h5 h6)

  -- Under the same conditions, and a namespace of 32 bits, `submit_identify_namespace` announces an
  -- identify command for the controller's namespace and the given page.
  pub submit_identify_namespace-Announces :
      (phys cmd_id : ℕ)
      → s.ctrl.nsid < 2 ^ 32
      → phys < 2 ^ 64
      → cmd_id < 2 ^ 16
      → Announces s
          (admin_entry 6 s.ctrl.nsid phys 0 0 cmd_id)
          (submit_identify_namespace phys cmd_id s)
  unfolding submit_identify_namespace write_admin get ◌>>=◌
  submit_identify_namespace-Announces phys cmd_id h1 h2 h3 =
      written-Announces (identify_fields s.ctrl.nsid phys cmd_id) _
        (decode-identify_fields _ s.log s.ctrl.nsid phys cmd_id h1 h2 h3)
