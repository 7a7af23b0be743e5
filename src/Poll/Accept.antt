-- ===== src/Poll/Accept.antt =====
-- The reference: what taking a run of completions does to a thread's data.
use fioplugin.Prelude.{
  ℕ, zero, suc, ◌+◌, ◌≤◌, ◌<◌, ◌≡◌, ◌≢◌, refl, sym, ◌∙◌, ap, arith, ◌==◌, ne→==, false, eq→==,
}
use fioplugin.Nvme.{NvmeData}
use fioplugin.Poll.{accept}
use fioplugin.Poll.Protocol.{Completion, IsSuccess}

-- Completions `k`, …, `k + c - 1`, into the places from `at` on.
abbrev pub accept_run : (ℕ → Completion) → (c k at : ℕ) → NvmeData → NvmeData
accept_run entry zero k at n = n
accept_run entry (suc c) k at n =
    accept_run entry c (k + 1) (at + 1)
      (accept at (n.cmd_io_u (entry k).cid) (entry k).cid (entry k).sqhd n)

-- Completions from `k` up to `last` succeeded, belong to commands under way, and have
-- identifiers of their own.
pub record AreExpected (entry : ℕ → Completion) (n : NvmeData) (k last : ℕ) : Type 0 where
  pub success : (j : ℕ) → k ≤ j → j < last → IsSuccess (entry j)
  pub known : (j : ℕ) → k ≤ j → j < last → n.cmd_io_u (entry j).cid ≢ 0
  pub distinct : (i j : ℕ) → k ≤ i → i < j → j < last → (entry i).cid ≢ (entry j).cid

-- Taking the first leaves the others expected.
pub accept-AreExpected :
    {entry : ℕ → Completion} {n : NvmeData} {k last : ℕ} (at io_u sqhd : ℕ)
    → k < last
    → AreExpected entry n k last
    → AreExpected entry (accept at io_u (entry k).cid sqhd n) (k + 1) last
unfolding accept
accept-AreExpected {entry} {n} {k} {last} at io_u sqhd h e = record {
  success = λ j a b. e.success j (omega arith) b;
  known = λ j a b.
      let miss : ((entry j).cid == (entry k).cid) ≡ false =
        ne→== _ _ (λ same. e.distinct k j (omega arith) (omega arith) b (sym same)) in
      rw miss (e.known j (omega arith) b);
  distinct = λ i j a b c. e.distinct i j (omega arith) b c;
}

-- The fields that completions do not touch.
pub accept_run-fields :
    (entry : ℕ → Completion) (c k at : ℕ) (n : NvmeData)
    → ((accept_run entry c k at n).nr_events ≡ n.nr_events)
      × ((accept_run entry c k at n).io_cq_depth ≡ n.io_cq_depth)
      × ((accept_run entry c k at n).io_sq_tail ≡ n.io_sq_tail)
      × ((accept_run entry c k at n).io_sq_depth ≡ n.io_sq_depth)
      × ((accept_run entry c k at n).ic_cq_head ≡ n.ic_cq_head)
      × ((accept_run entry c k at n).io_cq_pahse ≡ n.io_cq_pahse)
unfolding accept
accept_run-fields entry zero k at n = (refl, refl, refl, refl, refl, refl)
accept_run-fields entry (suc c) k at n = accept_run-fields entry c (k + 1) (at + 1) _

-- Places before `nr_events + at` keep their events.
pub accept_run-events_below :
    (entry : ℕ → Completion) (c k at : ℕ) (n : NvmeData) (x : ℕ)
    → x < n.nr_events + at
    → (accept_run entry c k at n).events x ≡ n.events x
unfolding accept
accept_run-events_below entry zero k at n x h = refl
accept_run-events_below entry (suc c) k at n x h =
    accept_run-events_below entry c (k + 1) (at + 1) _ x (omega arith)
    ∙ rw (ne→== x (n.nr_events + at) (omega arith))

-- The identifiers that are not among the completions keep their commands.
pub accept_run-others :
    (entry : ℕ → Completion) (c k at : ℕ) (n : NvmeData) (x : ℕ)
    → ((j : ℕ) → k ≤ j → j < k + c → (entry j).cid ≢ x)
    → (accept_run entry c k at n).cmd_io_u x ≡ n.cmd_io_u x
unfolding accept
accept_run-others entry zero k at n x h = refl
accept_run-others entry (suc c) k at n x h =
    accept_run-others entry c (k + 1) (at + 1) _ x (λ j a b. h j (omega arith) (omega arith))
    ∙ rw (ne→== x (entry k).cid (λ e. h k (omega arith) (omega arith) (sym e)))

-- The events are the commands that completed, in the order of the queue.
pub accept_run-events :
    (entry : ℕ → Completion) (c k at last : ℕ) (n : NvmeData) (j : ℕ)
    → AreExpected entry n k last
    → k + c ≤ last
    → j < c
    → (accept_run entry c k at n).events (n.nr_events + at + j) ≡ n.cmd_io_u (entry (k + j)).cid
unfolding accept
accept_run-events entry zero k at last n j e b h = absurd (omega arith)
accept_run-events entry (suc c) k at last n zero e b h =
    let x : n.nr_events + at + 0 ≡ n.nr_events + at = omega arith in
    let y : k + 0 ≡ k = omega arith in
    rw (x, y)
      (accept_run-events_below entry c (k + 1) (at + 1) _ (n.nr_events + at) (omega arith)
        ∙ rw (eq→== (n.nr_events + at) (n.nr_events + at) refl))
accept_run-events entry (suc c) k at last n (suc j) e b h =
    let x : n.nr_events + at + suc j ≡ n.nr_events + (at + 1) + j = omega arith in
    let y : k + suc j ≡ k + 1 + j = omega arith in
    rw (x, y)
      (accept_run-events entry c (k + 1) (at + 1) last _ j
          (accept-AreExpected at (n.cmd_io_u (entry k).cid) (entry k).sqhd (omega arith) e)
          (omega arith) (omega arith)
        ∙ rw (
            ne→== (entry (k + 1 + j)).cid (entry k).cid (λ same.
              e.distinct k (k + 1 + j) (omega arith) (omega arith) (omega arith) (sym same))))

-- Their entries of `cmd_io_u` are free again.
pub accept_run-cleared :
    (entry : ℕ → Completion) (c k at last : ℕ) (n : NvmeData) (j : ℕ)
    → AreExpected entry n k last
    → k + c ≤ last
    → j < c
    → (accept_run entry c k at n).cmd_io_u (entry (k + j)).cid ≡ 0
unfolding accept
accept_run-cleared entry zero k at last n j e b h = absurd (omega arith)
accept_run-cleared entry (suc c) k at last n zero e b h =
    let y : k + 0 ≡ k = omega arith in
    rw y (
      accept_run-others entry c (k + 1) (at + 1) _ (entry k).cid
        (λ i p q same. e.distinct k i (omega arith) (omega arith) (omega arith) (sym same))
      ∙ rw (eq→== (entry k).cid (entry k).cid refl))
accept_run-cleared entry (suc c) k at last n (suc j) e b h =
    let y : k + suc j ≡ k + 1 + j = omega arith in
    rw y (
      accept_run-cleared entry c (k + 1) (at + 1) last _ j
        (accept-AreExpected at (n.cmd_io_u (entry k).cid) (entry k).sqhd (omega arith) e)
        (omega arith) (omega arith))

-- The head that the engine works with is the one that the last completion reports.
pub accept_run-sq_head :
    (entry : ℕ → Completion) (c k at : ℕ) (n : NvmeData)
    → (accept_run entry (suc c) k at n).io_sq_head ≡ (entry (k + c)).sqhd
unfolding accept
accept_run-sq_head entry zero k at n = ap (λ (j : ℕ). (entry j).sqhd) (omega arith)
accept_run-sq_head entry (suc c) k at n =
    accept_run-sq_head entry c (k + 1) (at + 1)
      (accept at (n.cmd_io_u (entry k).cid) (entry k).cid (entry k).sqhd n)
    ∙ ap (λ (j : ℕ). (entry j).sqhd) {x = k + 1 + c} {y = k + suc c} (omega arith)

-- All that completions change.
pub accept_run-rest :
    (entry : ℕ → Completion) (c k at : ℕ) (n : NvmeData)
    → accept_run entry c k at n ≡ record n {
      events = (accept_run entry c k at n).events;
      cmd_io_u = (accept_run entry c k at n).cmd_io_u;
      io_sq_head = (accept_run entry c k at n).io_sq_head;
    }
unfolding accept
accept_run-rest entry zero k at n = refl
accept_run-rest entry (suc c) k at n = accept_run-rest entry c (k + 1) (at + 1) _
