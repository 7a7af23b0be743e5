-- ===== src/Jobs/Threads.antt =====
-- The threads that are attached: how many, and which queues they use.
use fioplugin.Prelude.{
  ℕ, suc, ◌≤◌, ◌<◌, ◌≡◌, ◌≢◌, refl, sym, ◌∙◌, ap, arith, none, some, List, [], ◌∷◌, ◌==◌, length, ⊤,
  Bool-cases, inl, inr, ==→eq,
}
use fioplugin.Nvme.{NvmeData}
use fioplugin.Jobs.{Shared, find, put, drop_data}

-- Queue identifiers from 1 up to a bound, each below those of the threads that came later.
abbrev pub Below : ℕ → List (ℕ × NvmeData) → Type 0
Below b [] = ⊤
Below b ((td, n) ∷ rest) = (0 < n.io_qid) × (n.io_qid < b) × Below n.io_qid rest

-- `curr_thread_num` counts the attached threads, their queues are distinct and below the next one,
-- and they have a controller.
pub record Inv (j : Shared) : Type 0 where
  pub count : j.curr_thread_num ≡ length j.io_ops_data
  pub qids : Below j.next_io_qid j.io_ops_data
  pub next : (0 < j.next_io_qid) × (j.next_io_qid < 65536)
  pub controller : j.g_ctrl ≡ none → j.io_ops_data ≡ []

pub Below-weaken : {a b : ℕ} (l : List (ℕ × NvmeData)) → a ≤ b → Below a l → Below b l
Below-weaken [] h x = tt
Below-weaken ((td, n) ∷ rest) h (p, u, r) = (p, omega arith, r)

-- No more threads than identifiers.
pub length-Below : (b : ℕ) (l : List (ℕ × NvmeData)) → 0 < b → Below b l → length l < b
length-Below b [] h x = h
length-Below b ((td, n) ∷ rest) h (p, u, r) = omega (arith, length-Below n.io_qid rest p r)

pub drop_data-Below : (b td : ℕ) (l : List (ℕ × NvmeData)) → Below b l → Below b (drop_data td l)
drop_data-Below b td [] x = tt
drop_data-Below b td ((t, n) ∷ rest) (p, u, r) = elim (Bool-cases (t == td)) [
  | inl same ↦ rw same (Below-weaken rest (omega arith) r)
  | inr other ↦ rw other (p, u, drop_data-Below n.io_qid td rest r)
]

pub length-drop_data :
    (td : ℕ) (l : List (ℕ × NvmeData)) (n : NvmeData)
    → find td l ≡ some n
    → length l ≡ suc (length (drop_data td l))
length-drop_data td [] n h = cc
length-drop_data td ((t, m) ∷ rest) n h = ground (arith, length-drop_data td rest n)

pub put-Below :
    (b td : ℕ) (l : List (ℕ × NvmeData)) (n n' : NvmeData)
    → find td l ≡ some n
    → n'.io_qid ≡ n.io_qid
    → Below b l
    → Below b (put td n' l)
put-Below b td [] n n' h q x = tt
put-Below b td ((t, m) ∷ rest) n n' h q (p, u, r) = elim (Bool-cases (t == td)) [
  | inl same ↦
      let is : m ≡ n = (let eq : some m ≡ some n = rw same at h in cc) in
      let id : n'.io_qid ≡ m.io_qid = q ∙ ap (λ (x : NvmeData). x.io_qid) (sym is) in
      rw same (omega (arith, p, id), omega (arith, u, id), rw id r)
  | inr other ↦
      let h' : find td rest ≡ some n = rw other at h in
      rw other (p, u, put-Below m.io_qid td rest n n' h' q r)
]

pub length-put : (td : ℕ) (l : List (ℕ × NvmeData)) (n : NvmeData) → length (put td n l) ≡ length l
length-put td [] n = refl
length-put td ((t, m) ∷ rest) n = ground (arith, length-put td rest n)

pub put-none : (td : ℕ) (l : List (ℕ × NvmeData)) (n : NvmeData) → l ≡ [] → put td n l ≡ []
put-none td [] n e = refl
put-none td (x ∷ rest) n e = absurd cc

-- A thread that is found has an identifier below the bound.
pub find-Below :
    (b td : ℕ) (l : List (ℕ × NvmeData)) (n : NvmeData)
    → Below b l
    → find td l ≡ some n
    → (0 < n.io_qid) × (n.io_qid < b)
find-Below b td [] n x h = absurd cc
find-Below b td ((t, m) ∷ rest) n (p, u, r) h = elim (Bool-cases (t == td)) [
  | inl same ↦
      let is : m ≡ n = (let eq : some m ≡ some n = rw same at h in cc) in rw (sym is) (p, u)
  | inr other ↦
      let (q, v) = find-Below m.io_qid td rest n r (rw other at h) in (q, omega (arith, u, v))
]

-- Two threads do not share a queue.
pub Below-apart :
    (b a c : ℕ) (l : List (ℕ × NvmeData)) (n m : NvmeData)
    → Below b l
    → a ≢ c
    → find a l ≡ some n
    → find c l ≡ some m
    → n.io_qid ≢ m.io_qid
Below-apart b a c [] n m x ne h g e = absurd cc
Below-apart b a c ((t, x) ∷ rest) n m (p, u, r) ne h g e = elim (Bool-cases (t == a)) [
  | inl ta ↦ elim (Bool-cases (t == c)) [
    | inl tc ↦ absurd (ne (sym (==→eq t a ta) ∙ ==→eq t c tc))
    | inr tc ↦
        let is : x ≡ n = (let eq : some x ≡ some n = rw ta at h in cc) in
        let (_, v) = find-Below x.io_qid c rest m r (rw tc at g) in
        ground (arith, v, e, ap (λ (y : NvmeData). y.io_qid) is)
  ]
  | inr ta ↦ elim (Bool-cases (t == c)) [
    | inl tc ↦
        let is : x ≡ m = (let eq : some x ≡ some m = rw tc at g in cc) in
        let (_, v) = find-Below x.io_qid a rest n r (rw ta at h) in
        ground (arith, v, e, ap (λ (y : NvmeData). y.io_qid) is)
    | inr tc ↦ Below-apart x.io_qid a c rest n m r ne (rw ta at h) (rw tc at g) e
  ]
]
