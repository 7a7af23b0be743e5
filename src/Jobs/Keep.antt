-- ===== src/Jobs/Keep.antt =====
-- `nvme_setup`, `nvme_init` and `nvme_size` keep the invariant.
use fioplugin.Prelude.{
  ℕ, suc, ◌+◌, ◌<◌, ◌≡◌, ◌≢◌, refl, sym, ◌∙◌, ap, arith, Bool, true, false, Option, none, some,
  List, [], ◌∷◌, ◌==◌, length, ltb, ⊤, Bool-cases, Option-cases, inl, inr, ==→eq,
}
use fioplugin.Prelude.Word.{u32}
use fioplugin.Machine.{Log, Platform}
use fioplugin.Nvme.{Controller, NvmeData, State}
use fioplugin.Target.{Strtoul}
use fioplugin.QueuePair.Identity.{create_io_queue_pair-id}
use fioplugin.Jobs.{
  find, drop_data, Shared, ThreadData, Ret, ok, failed, tear_down, one_less, came_up, set_up,
  share_controller, sized, size_of, nvme_size, size_files, then_files, nvme_setup, new_data,
  attached, attach, nvme_init,
}
use fioplugin.Jobs.Threads.{Inv, Below, Below-weaken, length-Below}

pub some-none : {A : Type 0} {a : A} → some a ≢ none
some-none e = cc

length-none : {A : Type 0} (l : List A) → length l ≡ 0 → l ≡ []
length-none [] e = refl
length-none (x ∷ xs) e = absurd (omega (arith, e))

-- After `--curr_thread_num`, of which `left` threads remain.
pub one_less-Inv :
    (p : Platform) (c : Controller) (n : NvmeData) (j : Shared)
    → j.curr_thread_num ≡ suc (length j.io_ops_data)
    → Below j.next_io_qid j.io_ops_data
    → 0 < j.next_io_qid
    → j.next_io_qid < 65536
    → Inv (one_less p c n j)
unfolding one_less tear_down
one_less-Inv p c n j count qids some_id small =
    let few : length j.io_ops_data < 65536 =
      omega (arith, length-Below j.next_io_qid j.io_ops_data some_id qids) in
    let left : u32 (j.curr_thread_num + 0xffff_ffff) ≡ length j.io_ops_data =
      omega (arith, count, few) in
    elim (Bool-cases (u32 (j.curr_thread_num + 0xffff_ffff) == 0)) [
      | inl last ↦
          let gone : j.io_ops_data ≡ [] = length-none j.io_ops_data (sym left ∙ ==→eq _ 0 last) in
          rw last (record {
            count = left;
            qids = rw gone tt;
            next = (omega arith, omega arith);
            controller = λ _. gone;
          })
      | inr others ↦ rw others (record {
        count = left;
        qids = qids;
        next = (some_id, small);
        controller = λ e. absurd (some-none e);
      })
    ]

-- Another controller state and another log.
pub reached :
    {j : Shared} (c : Controller) (log : Log)
    → Inv j
    → Inv (record j { g_ctrl = some c; log = log })
reached c log i = record {
  count = i.count;
  qids = i.qids;
  next = i.next;
  controller = λ e. absurd (some-none e);
}

came_up-Inv : (r : Option ⊤ × State) (j : Shared) → Inv j → Inv (came_up r j).1
unfolding came_up
came_up-Inv (none, s) j i = record {
  count = i.count;
  qids = i.qids;
  next = i.next;
  controller = i.controller;
}
came_up-Inv (some _, s) j i = reached s.ctrl s.log i

set_up-Inv : (p : Platform) (x : Option Controller) (j : Shared) → Inv j → Inv (set_up p x j).1
unfolding set_up
set_up-Inv p none j i = i
set_up-Inv p (some c) j i = came_up-Inv _ j i

share-Inv :
    (p : Platform) (strtoul : Strtoul) (memory : Bool) (t : ThreadData) (j : Shared)
    → Inv j
    → Inv (share_controller p strtoul memory t j).1
unfolding share_controller
share-Inv p strtoul memory t j i = elim (Option-cases j.g_ctrl) [
  | inl absent ↦ rw (absent, share_controller) (set_up-Inv p _ j i)
  | inr (c, there) ↦ rw (there, share_controller) i
]

sized-Inv : (f : ℕ) (r : Option ℕ × State) (j : Shared) → Inv j → Inv (sized f r j).1
unfolding sized
sized-Inv f (none, s) j i = reached s.ctrl s.log i
sized-Inv f (some size, s) j i = elim (Bool-cases (size == 0)) [
  | inl unknown ↦ rw unknown (reached s.ctrl s.log i)
  | inr known ↦ rw known (record {
    count = i.count;
    qids = i.qids;
    next = i.next;
    controller = λ e. absurd (some-none e);
  })
]

size_of-Inv :
    (p : Platform) (f : ℕ) (x : Option Controller) (j : Shared) → Inv j → Inv (size_of p f x j).1
unfolding size_of
size_of-Inv p f none j i = i
size_of-Inv p f (some c) j i = sized-Inv f _ j i

pub nvme_size-Inv : (p : Platform) (f : ℕ) (j : Shared) → Inv j → Inv (nvme_size p f j).1
unfolding nvme_size
nvme_size-Inv p f j i = size_of-Inv p f j.g_ctrl j i

module _ (get_file_size : ℕ → Shared → Ret × Shared)
    (keeps : (f : ℕ) (j : Shared) → Inv j → Inv (get_file_size f j).1) where
  next_file-Inv :
      (r : Ret × Shared) (rest : Shared → Ret × Shared)
      → Inv r.1
      → Inv (rest r.1).1
      → Inv (elim r.0 as (λ _. Ret × Shared) [ failed ↦ (failed, r.1) | ok ↦ rest r.1 ]).1
  next_file-Inv (failed, j) rest i k = i
  next_file-Inv (ok, j) rest i k = k

  size_files-Inv : (fs : List ℕ) (j : Shared) → Inv j → Inv (size_files get_file_size fs j).1
  unfolding size_files
  size_files-Inv [] j i = i
  size_files-Inv (f ∷ fs) j i =
      next_file-Inv (get_file_size f j) (size_files get_file_size fs) (keeps f j i)
        (size_files-Inv fs (get_file_size f j).1 (keeps f j i))

  then_files-Inv :
      (fs : List ℕ) (r : Ret × Shared) → Inv r.1 → Inv (then_files get_file_size fs r).1
  unfolding then_files
  then_files-Inv fs (failed, j) i = i
  then_files-Inv fs (ok, j) i = size_files-Inv fs j i

  pub nvme_setup-Inv :
      (p : Platform) (strtoul : Strtoul) (memory : Bool) (t : ThreadData) (j : Shared)
      → Inv j
      → Inv (nvme_setup p strtoul memory get_file_size t j).1
  unfolding nvme_setup
  nvme_setup-Inv p strtoul memory t j i = elim (Bool-cases (ltb 1 t.nr_files)) [
    | inl many ↦ rw many i
    | inr one ↦ rw one (then_files-Inv t.files _ (share-Inv p strtoul memory t j i))
  ]

-- A thread without data has none to lose.
absent-drop_data : (td : ℕ) (l : List (ℕ × NvmeData)) → find td l ≡ none → drop_data td l ≡ l
absent-drop_data td [] e = refl
absent-drop_data td ((t, n) ∷ rest) e = elim (Bool-cases (t == td)) [
  | inl same ↦ absurd (some-none {a = n} (sym (found same) ∙ e))
  | inr other ↦
      let later : find td rest ≡ none = sym (passed other) ∙ e in
      rw other (ap (λ (m : List (ℕ × NvmeData)). (t, n) ∷ m) (absent-drop_data td rest later))
]
  where
    found : (t == td) ≡ true → find td ((t, n) ∷ rest) ≡ some n
    found h = rw h refl

    passed : (t == td) ≡ false → find td ((t, n) ∷ rest) ≡ find td rest
    passed h = rw h refl

-- What `create_io_queue_pair` leaves, from data with the queue `qid`.
attached-Inv :
    (p : Platform) (td qid : ℕ) (r : Option ⊤ × State) (j : Shared)
    → ((s : State) → r ≡ (some tt, s) → s.io.io_qid ≡ qid)
    → j.curr_thread_num ≡ suc (length j.io_ops_data)
    → Below qid j.io_ops_data
    → 0 < qid
    → j.next_io_qid ≡ suc qid
    → qid < 65535
    → drop_data td j.io_ops_data ≡ j.io_ops_data
    → Inv (attached p td r j).1
unfolding attached
attached-Inv p td qid (none, s) j same count qids some_id next small kept = rw kept (
    one_less-Inv p s.ctrl s.io (record j { log = s.log }) count
      (Below-weaken j.io_ops_data (omega (arith, next)) qids) (omega (arith, next))
      (omega (arith, next, small)))
attached-Inv p td qid (some tt, s) j same count qids some_id next small kept =
    let id : s.io.io_qid ≡ qid = same s refl in
    rw kept (record {
      count = omega (arith, count);
      qids = (omega (arith, id, some_id), omega (arith, id, next), rw id qids);
      next = (omega (arith, next), omega (arith, next, small));
      controller = λ e. absurd (some-none e);
    })

attach-Inv :
    (p : Platform) (t : ThreadData) (x : Option Controller) (j : Shared)
    → j.next_io_qid < 65535
    → find t.td j.io_ops_data ≡ none
    → Inv j
    → Inv (attach p t x j).1
unfolding attach new_data
attach-Inv p t none j small absent i = i
attach-Inv p t (some c) j small absent i =
    let few : length j.io_ops_data < 65536 =
      omega (arith, length-Below j.next_io_qid j.io_ops_data i.next.0 i.qids, i.next.1) in
    attached-Inv p t.td j.next_io_qid _ _ (λ s e. create_io_queue_pair-id p _ s e)
      (omega (arith, i.count, few)) i.qids i.next.0 (omega (arith, small)) small
      (absent-drop_data t.td j.io_ops_data absent)

pub nvme_init-Inv :
    (p : Platform) (memory : Bool) (t : ThreadData) (j : Shared)
    → j.next_io_qid < 65535
    → find t.td j.io_ops_data ≡ none
    → Inv j
    → Inv (nvme_init p memory t j).1
unfolding nvme_init attach
nvme_init-Inv p memory t j small absent i = elim (Bool-cases t.use_thread) [
  | inr processes ↦ rw processes i
  | inl threads ↦ elim (Bool-cases (ltb 1 t.nr_files)) [
    | inl many ↦ rw (threads, many) i
    | inr one ↦ elim (Bool-cases memory) [
      | inl there ↦ rw (threads, one, there) (attach-Inv p t j.g_ctrl j small absent i)
      | inr exhausted ↦ rw (threads, one, exhausted) i
    ]
  ]
]
