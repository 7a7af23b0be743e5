-- ===== src/Admin/Ring.antt =====
-- The admin queues as rings: every operation keeps their indices in bounds.
use fioplugin.Prelude.{
  ℕ, zero, suc, ◌+◌, ◌*◌, ◌≡◌, ◌<◌, Bool-cases, inl, inr, ◌==◌, arith, bit_and, bit_xor,
}
use fioplugin.Prelude.Word.{u16}
use fioplugin.Machine.{Platform}
use fioplugin.Nvme.{Controller, State}
use fioplugin.Call.{Call}
use fioplugin.Call.Meets.{Ends, Meets, meets->>=, meets->>, meets-fail_if, meets-get, meets-modify}
use fioplugin.Regs.Access.{write32-Meets}
use fioplugin.Admin.{
  ring_admin, write_admin, submit_admin_command, submit_identify_namespace, look_cqe,
  next_admin_cqe, take_admin_cqe, wait_admin_completion, next_admin_cmd_id, admin_command,
}

-- Both queues have 32 entries, the tail and the head are indices of theirs, and the phase is a bit.
pub record InBounds (c : Controller) : Type 0 where
  pub sq_depth : c.admin_sq_depth ≡ 32
  pub cq_depth : c.admin_cq_depth ≡ 32
  pub sq_tail : c.admin_sq_tail < 32
  pub cq_head : c.admin_cq_head < 32
  pub cq_phase : c.admin_cq_phase < 2

abbrev pub Ok : State → Type 0
Ok s = InBounds s.ctrl

abbrev pub Keeps : {A : Type 0} → Call A → Type 0
Keeps m = Meets Ok m Ok (λ _. Ok)

turn : (b : ℕ) → b < 2 → bit_xor b 1 < 2
turn zero h = omega arith
turn (suc zero) h = omega arith
turn (suc (suc b)) h = absurd (omega arith)

ring_admin-Keeps : Keeps ring_admin
unfolding ring_admin
ring_admin-Keeps = record {
  run = λ s x.
      (write32-Meets {P = Ok} {E = Ok} {Q = Ok} s.ctrl.admin_sq_tail_db _ (λ _ y. y) (λ _ y. y)).run
        _
        (record {
          sq_depth = x.sq_depth;
          cq_depth = x.cq_depth;
          sq_tail = ground (arith, x.sq_depth, x.sq_tail);
          cq_head = x.cq_head;
          cq_phase = x.cq_phase;
        });
}

pub submit_admin_command-Keeps :
    (opcode nsid prp1 cdw10 cdw11 cmd_id : ℕ)
    → Keeps (submit_admin_command opcode nsid prp1 cdw10 cdw11 cmd_id)
unfolding submit_admin_command write_admin
submit_admin_command-Keeps opcode nsid prp1 cdw10 cdw11 cmd_id =
    meets->> (meets-modify _ (λ _ x. x)) ring_admin-Keeps

pub submit_identify_namespace-Keeps :
    (phys cmd_id : ℕ) → Keeps (submit_identify_namespace phys cmd_id)
unfolding submit_identify_namespace write_admin
submit_identify_namespace-Keeps phys cmd_id =
    meets->>= (meets-get _)
      (λ nsid. meets->> (meets-modify {Q = Ok} _ (λ _ x. x.0)) ring_admin-Keeps)

look_cqe-Keeps : (p : Platform) (offset : ℕ) → Keeps (look_cqe p offset)
unfolding look_cqe
look_cqe-Keeps p offset = record { run = λ s x. x }

next_admin_cqe-Ok : (s : State) → Ok s → Ok (next_admin_cqe s)
unfolding next_admin_cqe
next_admin_cqe-Ok s x =
    elim (Bool-cases (u16 (s.ctrl.admin_cq_head + 1) == s.ctrl.admin_cq_depth)) [
      | inl wrap ↦ rw wrap (record {
        sq_depth = x.sq_depth;
        cq_depth = x.cq_depth;
        sq_tail = x.sq_tail;
        cq_head = omega arith;
        cq_phase = turn _ x.cq_phase;
      })
      | inr inside ↦ rw inside (record {
        sq_depth = x.sq_depth;
        cq_depth = x.cq_depth;
        sq_tail = x.sq_tail;
        cq_head = ground (arith, x.cq_depth, x.cq_head, inside);
        cq_phase = x.cq_phase;
      })
    ]

take_admin_cqe-Keeps : (p : Platform) (cmd_id : ℕ) → Keeps (take_admin_cqe p cmd_id)
unfolding take_admin_cqe
take_admin_cqe-Keeps p cmd_id = meets->>= (look_cqe-Keeps p _) (λ cid.
    meets->>= (look_cqe-Keeps p _) (λ sc. meets->>= (look_cqe-Keeps p _) (λ sct.
      meets->> (meets-fail_if _ (λ _ x. x) (λ _ x _. x)) (
        meets->> (meets-modify _ next_admin_cqe-Ok) (
          meets->>= (meets-get _) (λ db. meets->>= (meets-get {P = λ s. Ok s × _} _) (λ head.
            meets->> (write32-Meets {Q = Ok} _ _ (λ _ x. x.0.0) (λ _ x. x.0.0))
              (meets-fail_if _ (λ _ x. x) (λ _ x _. x)))))))))

pub wait_admin_completion-Keeps :
    (p : Platform) (cmd_id left : ℕ) → Keeps (wait_admin_completion p cmd_id left)
unfolding wait_admin_completion look_cqe
wait_admin_completion-Keeps p cmd_id left = record { run = from left }
  where
    from : (left : ℕ) (s : State) → Ok s → Ends Ok (λ _. Ok) (wait_admin_completion p cmd_id left s)
    from zero s x = x
    from (suc left) s x =
        let psf : ℕ =
          u16 (p.mem s.log 2 (s.ctrl.admin_cq_virt_addr + 16 * s.ctrl.admin_cq_head + 14)) in
        elim (Bool-cases (bit_and psf 1 == s.ctrl.admin_cq_phase)) [
          | inl posted ↦ rw posted ((take_admin_cqe-Keeps p cmd_id).run _ x)
          | inr waiting ↦ rw waiting (from left _ x)
        ]

pub next_admin_cmd_id-Keeps : Keeps next_admin_cmd_id
unfolding next_admin_cmd_id
next_admin_cmd_id-Keeps = record {
  run = λ s x. record {
    sq_depth = x.sq_depth;
    cq_depth = x.cq_depth;
    sq_tail = x.sq_tail;
    cq_head = x.cq_head;
    cq_phase = x.cq_phase;
  };
}

pub admin_command-Keeps :
    (p : Platform) (opcode prp1 cdw10 cdw11 : ℕ) → Keeps (admin_command p opcode prp1 cdw10 cdw11)
unfolding admin_command
admin_command-Keeps p opcode prp1 cdw10 cdw11 = meets->>= next_admin_cmd_id-Keeps (λ cmd_id.
    meets->> (submit_admin_command-Keeps opcode 0 prp1 cdw10 cdw11 cmd_id)
      (wait_admin_completion-Keeps p cmd_id _))
