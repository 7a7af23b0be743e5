-- ===== src/Jobs/Attached.antt =====
-- `nvme_cleanup`, `nvme_alloc` and `nvme_free` keep the invariant and use no freed controller.
use fioplugin.Prelude.{ℕ, ◌≡◌, refl, sym, ◌∙◌, Option, none, some, Option-cases, inl, inr}
use fioplugin.Machine.{Log, Platform}
use fioplugin.Nvme.{Controller, NvmeData, Mem, State}
use fioplugin.Dma.{nvme_alloc_dma_mem, free_dma}
use fioplugin.QueuePair.{delete_io_queue_pair}
use fioplugin.Jobs.{
  Shared, find, put, drop_data, one_less, detach, nvme_cleanup, set_io_u_data, buffered, alloc_for,
  nvme_alloc, free_for, nvme_free,
}
use fioplugin.Jobs.Threads.{Inv, drop_data-Below, length-drop_data, put-Below, length-put, put-none}
use fioplugin.Jobs.Keep.{some-none, one_less-Inv, reached}

-- A callback that uses no freed controller and ends in a state with the invariant.
pub record Lands (r : Option Shared) : Type 0 where
  pub after : Shared
  pub returns : r ≡ some after
  pub inv : Inv after

-- The controller of a thread that has data.
its_controller :
    (td : ℕ) (n : NvmeData) (j : Shared)
    → Inv j
    → find td j.io_ops_data ≡ some n
    → (c : Controller) × (j.g_ctrl ≡ some c)
its_controller td n j i h = elim (Option-cases j.g_ctrl) [
  | inl absent ↦
      let gone : find td j.io_ops_data ≡ none = rw (i.controller absent) refl in
      absurd (some-none (sym h ∙ gone))
  | inr there ↦ there
]

pub nvme_cleanup-Lands : (p : Platform) (td : ℕ) (j : Shared) → Inv j → Lands (nvme_cleanup p td j)
unfolding nvme_cleanup detach
nvme_cleanup-Lands p td j i = elim (Option-cases (find td j.io_ops_data)) [
  | inl absent ↦ record { after = j; returns = rw absent refl; inv = i }
  | inr (n, there) ↦
      let (c, g) = its_controller td n j i there in
      let s = (delete_io_queue_pair p (record { ctrl = c; io = n; log = j.log })).1 in
      record {
        after =
            one_less p s.ctrl s.io
              (record j { io_ops_data = drop_data td j.io_ops_data; log = s.log });
        returns = rw (there, g) refl;
        inv =
            one_less-Inv p s.ctrl s.io _ (i.count ∙ length-drop_data td j.io_ops_data n there)
              (drop_data-Below j.next_io_qid td j.io_ops_data i.qids) i.next.0 i.next.1;
      }
]

-- Other data of a thread with the same queue.
put-Inv :
    {j : Shared} (td : ℕ) (n n' : NvmeData) (c : Controller) (log : Log)
    → Inv j
    → find td j.io_ops_data ≡ some n
    → n'.io_qid ≡ n.io_qid
    → Inv (record j { g_ctrl = some c; io_ops_data = put td n' j.io_ops_data; log = log })
put-Inv {j} td n n' c log i there same = record {
  count = i.count ∙ sym (length-put td j.io_ops_data n');
  qids = put-Below j.next_io_qid td j.io_ops_data n n' there same i.qids;
  next = i.next;
  controller = λ e. absurd (some-none e);
}

buffered-Inv :
    (td : ℕ) (n : NvmeData) (r : Option Mem × State) (j : Shared)
    → Inv j
    → find td j.io_ops_data ≡ some n
    → Inv (buffered td n r j).1
unfolding buffered
buffered-Inv td n (none, s) j i there = reached s.ctrl s.log i
buffered-Inv td n (some m, s) j i there = put-Inv td n (set_io_u_data m n) s.ctrl s.log i there refl

-- The state of `nvme_alloc`, whatever it returns.
abbrev pub state_of : Option (Option ℕ × Shared) → Option Shared
state_of none = none
state_of (some (_, j)) = some j

pub nvme_alloc-Lands :
    (p : Platform) (td total_sz : ℕ) (j : Shared)
    → Inv j
    → Lands (state_of (nvme_alloc p td total_sz j))
unfolding nvme_alloc alloc_for
nvme_alloc-Lands p td total_sz j i = elim (Option-cases (find td j.io_ops_data)) [
  | inl absent ↦ record { after = j; returns = rw absent refl; inv = i }
  | inr (n, there) ↦
      let (c, g) = its_controller td n j i there in
      let r = nvme_alloc_dma_mem p total_sz (λ _ s. s) (record { ctrl = c; io = n; log = j.log }) in
      record {
        after = (buffered td n r j).1;
        returns = rw (there, g) refl;
        inv = buffered-Inv td n r j i there;
      }
]

free_for-Inv :
    (td : ℕ) (x : Option NvmeData) (j : Shared)
    → Inv j
    → find td j.io_ops_data ≡ x
    → Inv (free_for td x j)
unfolding free_for
free_for-Inv td none j i there = i
free_for-Inv td (some n) j i there =
    let (m, log) = free_dma n.io_u_data_mem j.log in
    record {
      count = i.count ∙ sym (length-put td j.io_ops_data _);
      qids = put-Below j.next_io_qid td j.io_ops_data n _ there refl i.qids;
      next = i.next;
      controller = λ e. put-none td j.io_ops_data _ (i.controller e);
    }

pub nvme_free-Inv : (td : ℕ) (j : Shared) → Inv j → Inv (nvme_free td j)
unfolding nvme_free
nvme_free-Inv td j i = free_for-Inv td _ j i refl
