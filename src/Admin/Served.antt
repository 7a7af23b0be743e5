-- ===== src/Admin/Served.antt =====
-- What `wait_admin_completion` has seen and done when it succeeds.
use fioplugin.Prelude.{
  ℕ, zero, suc, ◌+◌, ◌*◌, ◌%◌, ◌≡◌, refl, sym, ◌∙◌, ap, ap₂, arith, true, false, ◌||◌, ◌==◌, ◌!=◌,
  if◌then◌else◌, some, ⊤, ◌∷◌, Bool-cases, inl, inr, bit_and, bit_xor, ==→eq,
}
use fioplugin.Prelude.Word.{u16, ◌>>>◌}
use mathlib.Core.Path.{subst}
use fioplugin.Machine.{Event, Log, Platform}
use fioplugin.Nvme.{Controller, State}
use fioplugin.Call.Meets.{
  Ends, Meets, meets->>=, meets->>, meets-fail_if, meets-get, meets-modify, meets-weaken,
}
use fioplugin.Poll.{cid_at, psf_at, cq_entry_size}
use fioplugin.Regs.Access.{write32-Meets}
use fioplugin.Admin.{look_cqe, next_admin_cqe, take_admin_cqe, wait_admin_completion}
use fioplugin.Admin.Ring.{InBounds}

-- Two bytes of the entry at the head of the queue, as the device gives them after some log.
abbrev pub seen : Platform → Controller → (offset : ℕ) → Log → ℕ
seen p c offset log =
    u16 (p.mem log 2 (c.admin_cq_virt_addr + cq_entry_size * c.admin_cq_head + offset))

-- The entry at the head of `c`'s queue had the phase that is expected, the identifier of the command
-- and a status without an error; the head has moved on by one, the phase has turned where the queue
-- begins again, and the doorbell of the new head has been rung last.
pub record Served (p : Platform) (cmd_id : ℕ) (c : Controller) (s : State) : Type 0 where
  pub posted : (log : Log) × (bit_and (seen p c psf_at log) 1 ≡ c.admin_cq_phase)
  pub same_id : (log : Log) × (seen p c cid_at log ≡ cmd_id)
  pub status :
      (a b : Log) × ((bit_and (seen p c psf_at b >>> 9) 0x7 != 0
          || bit_and (seen p c psf_at a >>> 1) 0xff != 0)
        ≡ false)
  pub head : s.ctrl.admin_cq_head ≡ (c.admin_cq_head + 1) % 32
  pub phase :
      s.ctrl.admin_cq_phase
      ≡ (if c.admin_cq_head + 1 == 32 then bit_xor c.admin_cq_phase 1 else c.admin_cq_phase)
  pub rung :
      (before : Log) × (s.log
        ≡ Event.reg_store (c.bar0_virt + c.admin_cq_head_db) s.ctrl.admin_cq_head ∷ before)

module _ (p : Platform) (cmd_id : ℕ) (c : Controller) (ok : InBounds c) where
  -- The controller's data are those at the start.
  abbrev Same : State → Type 0
  Same s = s.ctrl ≡ c

  -- A read, with what is known before it.
  look-Same :
      (F : Type 0) (offset : ℕ)
      → Meets
          (λ s. Same s × F)
          (look_cqe p offset)
          (λ _. ⊤)
          (λ v s. Same s × (F × ((log : Log) × (seen p c offset log ≡ v))))
  unfolding look_cqe
  look-Same F offset = record {
    run = λ s (e, f). (e, (f, (s.log, ap (λ (d : Controller). seen p d offset s.log) (sym e))));
  }

  -- After the head has moved on.
  record Moved (d : Controller) : Type 0 where
    pub head : d.admin_cq_head ≡ (c.admin_cq_head + 1) % 32
    pub phase :
        d.admin_cq_phase
        ≡ (if c.admin_cq_head + 1 == 32 then bit_xor c.admin_cq_phase 1 else c.admin_cq_phase)
    pub bar0 : d.bar0_virt ≡ c.bar0_virt
    pub db : d.admin_cq_head_db ≡ c.admin_cq_head_db

  next-Moved : (s : State) → Same s → Moved (next_admin_cqe s).ctrl
  unfolding next_admin_cqe
  next-Moved s e =
      let h : s.ctrl.admin_cq_head ≡ c.admin_cq_head = ap (λ (d : Controller). d.admin_cq_head) e in
      let d : s.ctrl.admin_cq_depth ≡ 32 =
        ap (λ (d : Controller). d.admin_cq_depth) e ∙ ok.cq_depth in
      let f : s.ctrl.admin_cq_phase ≡ c.admin_cq_phase =
        ap (λ (d : Controller). d.admin_cq_phase) e in
      let b : s.ctrl.bar0_virt ≡ c.bar0_virt = ap (λ (d : Controller). d.bar0_virt) e in
      let q : s.ctrl.admin_cq_head_db ≡ c.admin_cq_head_db =
        ap (λ (d : Controller). d.admin_cq_head_db) e in
      elim (Bool-cases (u16 (s.ctrl.admin_cq_head + 1) == s.ctrl.admin_cq_depth)) [
        | inl last ↦
            let wraps : (c.admin_cq_head + 1 == 32) ≡ true =
              ground (arith, last, h, d, ok.cq_head) in
            rw last (record {
              head = ground (arith, wraps);
              phase = rw wraps (ap (λ x. bit_xor x 1) f);
              bar0 = b;
              db = q;
            })
        | inr more ↦
            let stays : (c.admin_cq_head + 1 == 32) ≡ false =
              ground (arith, more, h, d, ok.cq_head) in
            rw more (record {
              head = ground (arith, stays, h, ok.cq_head);
              phase = rw stays f;
              bar0 = b;
              db = q;
            })
      ]

  -- What the reads have shown.
  abbrev Shown : (sc sct : ℕ) → Type 0
  Shown sc sct =
      ((log : Log) × (seen p c cid_at log ≡ cmd_id))
      × (((log : Log) × (seen p c psf_at log ≡ sc)) × ((log : Log) × (seen p c psf_at log ≡ sct)))

  abbrev Rung : State → Type 0
  Rung s =
      (before : Log) × (s.log
        ≡ Event.reg_store (c.bar0_virt + c.admin_cq_head_db) s.ctrl.admin_cq_head ∷ before)

  abbrev Good : (sc sct : ℕ) → Type 0
  Good sc sct = (bit_and (sct >>> 9) 0x7 != 0 || bit_and (sc >>> 1) 0xff != 0) ≡ false

  record Taken (s : State) : Type 0 where
    pub sc : ℕ
    pub sct : ℕ
    pub shown : Shown sc sct
    pub good : Good sc sct
    pub moved : Moved s.ctrl
    pub rung : Rung s

  take-Taken : Meets Same (take_admin_cqe p cmd_id) (λ _. ⊤) (λ _ s. Taken s)
  unfolding take_admin_cqe
  take-Taken =
      meets-weaken
        (meets->>= (look-Same ⊤ cid_at) (λ cid. meets->>= (look-Same _ psf_at) (λ sc.
          meets->>= (look-Same _ psf_at) (λ sct.
            meets->> {Q = λ s. Same s × Shown sc sct}
              (meets-fail_if _ (λ _ _. tt)
                (λ s (e, (((u, l), a), b)) ours. (e, ((l.0, l.1 ∙ ground (arith, ours)), (a, b)))))
              (meets->> {Q = λ s. Moved s.ctrl × Shown sc sct}
                (meets-modify _ (λ s (e, f). (next-Moved s e, f)))
                (meets->>= (meets-get _) (λ db. meets->>= (meets-get _) (λ head.
                  meets->> {Q = λ s. (Moved s.ctrl × Shown sc sct) × Rung s}
                    (write32-Meets _ _ (λ _ _. tt)
                      (λ s ((x, d), h). (
                        x,
                        (
                          s.log,
                          ap₂ (λ o v. Event.reg_store o v ∷ s.log)
                              (omega (arith, x.0.bar0, d, x.0.db)) (sym h),
                        ),
                      )))
                    (meets-fail_if _ (λ _ _. tt)
                      (λ s ((m, f), r) good. record {
                        sc = sc;
                        sct = sct;
                        shown = f;
                        good = good;
                        moved = m;
                        rung = r;
                      }))))))))))
        (λ s e. (e, tt)) (λ _ x. x) (λ _ _ x. x)

  -- What a successful wait has shown.
  done :
      (log : Log) (s : State)
      → bit_and (seen p c psf_at log) 1 ≡ c.admin_cq_phase
      → Taken s
      → Served p cmd_id c s
  done log s posted t =
      let ((l, e), ((a, f), (b, g))) = t.shown in
      record {
        posted = (log, posted);
        same_id = (l, e);
        status = (a, b, rw (f, g) t.good);
        head = t.moved.head;
        phase = t.moved.phase;
        rung = t.rung;
      }

  pub wait-Served :
      (left : ℕ) (s : State)
      → Same s
      → Ends (λ _. ⊤) (λ _ t. Served p cmd_id c t) (wait_admin_completion p cmd_id left s)
  unfolding wait_admin_completion look_cqe
  wait-Served zero s e = tt
  wait-Served (suc left) s e =
      let psf : ℕ = seen p s.ctrl psf_at s.log in
      elim (Bool-cases (bit_and psf 1 == s.ctrl.admin_cq_phase)) [
        | inl posted ↦
            let at : bit_and (seen p c psf_at s.log) 1 ≡ c.admin_cq_phase =
              ap (λ (d : Controller). bit_and (seen p d psf_at s.log) 1) (sym e)
              ∙ ==→eq _ _ posted
              ∙ ap (λ (d : Controller). d.admin_cq_phase) e in
            rw posted
              ((meets-weaken take-Taken (λ _ x. x) (λ _ x. x) (λ _ t. done s.log t at)).run _ e)
        | inr waiting ↦ rw waiting (wait-Served left _ e)
      ]

-- With the admin queues in bounds, if `wait_admin_completion` succeeds the device has shown at the
-- head of the completion queue an entry with the expected phase, the command's identifier and no
-- error; the head is the next one, modulo 32, the phase has turned where the queue begins again, and
-- the doorbell of the new head rang last.
pub wait_admin_completion-Served :
    (p : Platform) (cmd_id left : ℕ) (s s' : State)
    → InBounds s.ctrl
    → wait_admin_completion p cmd_id left s ≡ (some tt, s')
    → Served p cmd_id s.ctrl s'
wait_admin_completion-Served p cmd_id left s s' ok e =
    subst (Ends (λ _. ⊤) (λ _ t. Served p cmd_id s.ctrl t)) e
      (wait-Served p cmd_id s.ctrl ok left s refl)
