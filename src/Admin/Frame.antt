-- ===== src/Admin/Frame.antt =====
-- The admin commands leave the data of the thread as it is.
use fioplugin.Prelude.{ℕ, zero, suc, ◌+◌, ◌*◌, Bool-cases, inl, inr, ⊤, ◌==◌, bit_and}
use fioplugin.Prelude.Word.{u16}
use fioplugin.Machine.{Platform}
use fioplugin.Nvme.{NvmeData, State}
use fioplugin.Call.{Call}
use fioplugin.Call.Meets.{Ends, Meets, meets->>=, meets->>, meets-fail_if, meets-get, meets-modify}
use fioplugin.Regs.Access.{write32-Meets}
use fioplugin.Admin.{
  ring_admin, write_admin, submit_admin_command, look_cqe, next_admin_cqe, take_admin_cqe,
  wait_admin_completion, next_admin_cmd_id, admin_command,
}

-- If the call succeeds what held of the thread's data still does.
abbrev pub Spares : {A : Type 0} → (NvmeData → Type 0) → Call A → Type 0
Spares C m = Meets (λ s. C s.io) m (λ _. ⊤) (λ _ s. C s.io)

module _ (C : NvmeData → Type 0) where
  ring_admin-Spares : Spares C ring_admin
  unfolding ring_admin
  ring_admin-Spares = record {
    run = λ s x.
        (write32-Meets {P = λ t. C t.io} {E = λ _. ⊤} {Q = λ t. C t.io} s.ctrl.admin_sq_tail_db _
            (λ _ _. tt) (λ _ y. y)).run
          _ x;
  }

  submit_admin_command-Spares :
      (opcode nsid prp1 cdw10 cdw11 cmd_id : ℕ)
      → Spares C (submit_admin_command opcode nsid prp1 cdw10 cdw11 cmd_id)
  unfolding submit_admin_command write_admin
  submit_admin_command-Spares opcode nsid prp1 cdw10 cdw11 cmd_id =
      meets->> (meets-modify _ (λ _ x. x)) ring_admin-Spares

  look_cqe-Spares : (p : Platform) (offset : ℕ) → Spares C (look_cqe p offset)
  unfolding look_cqe
  look_cqe-Spares p offset = record { run = λ s x. x }

  next_admin_cqe-io : (s : State) → C s.io → C (next_admin_cqe s).io
  unfolding next_admin_cqe
  next_admin_cqe-io s x =
      elim (Bool-cases (u16 (s.ctrl.admin_cq_head + 1) == s.ctrl.admin_cq_depth)) [
        | inl wrap ↦ rw wrap x
        | inr inside ↦ rw inside x
      ]

  take_admin_cqe-Spares : (p : Platform) (cmd_id : ℕ) → Spares C (take_admin_cqe p cmd_id)
  unfolding take_admin_cqe
  take_admin_cqe-Spares p cmd_id = meets->>= (look_cqe-Spares p _) (λ cid.
      meets->>= (look_cqe-Spares p _) (λ sc. meets->>= (look_cqe-Spares p _) (λ sct.
        meets->> (meets-fail_if _ (λ _ _. tt) (λ _ x _. x)) (
          meets->> (meets-modify _ next_admin_cqe-io) (
            meets->>= (meets-get _) (λ db. meets->>= (meets-get {P = λ s. C s.io × _} _) (λ head.
              meets->> (write32-Meets {Q = λ s. C s.io} _ _ (λ _ _. tt) (λ _ x. x.0.0))
                (meets-fail_if _ (λ _ _. tt) (λ _ x _. x)))))))))

  wait_admin_completion-Spares :
      (p : Platform) (cmd_id left : ℕ) → Spares C (wait_admin_completion p cmd_id left)
  unfolding wait_admin_completion look_cqe
  wait_admin_completion-Spares p cmd_id left = record { run = from left }
    where
      from :
          (left : ℕ) (s : State)
          → C s.io
          → Ends (λ _. ⊤) (λ _ t. C t.io) (wait_admin_completion p cmd_id left s)
      from zero s x = tt
      from (suc left) s x =
          let psf : ℕ =
            u16 (p.mem s.log 2 (s.ctrl.admin_cq_virt_addr + 16 * s.ctrl.admin_cq_head + 14)) in
          elim (Bool-cases (bit_and psf 1 == s.ctrl.admin_cq_phase)) [
            | inl posted ↦ rw posted ((take_admin_cqe-Spares p cmd_id).run _ x)
            | inr waiting ↦ rw waiting (from left _ x)
          ]

  next_admin_cmd_id-Spares : Spares C next_admin_cmd_id
  unfolding next_admin_cmd_id
  next_admin_cmd_id-Spares = record { run = λ s x. x }

  pub admin_command-Spares :
      (p : Platform) (opcode prp1 cdw10 cdw11 : ℕ)
      → Spares C (admin_command p opcode prp1 cdw10 cdw11)
  unfolding admin_command
  admin_command-Spares p opcode prp1 cdw10 cdw11 = meets->>= next_admin_cmd_id-Spares (λ cmd_id.
      meets->> (submit_admin_command-Spares opcode 0 prp1 cdw10 cdw11 cmd_id)
        (wait_admin_completion-Spares p cmd_id _))
