-- ===== src/Sample/Completions.antt =====
-- A controller that has posted two completions for the thread of the samples.
use fioplugin.Prelude.{
  ℕ, zero, suc, ◌+◌, ◌*◌, ◌<◌, ◌≡◌, ◌≢◌, refl, arith, none, false, [], ◌-◌, ◌==◌, if◌then◌else◌,
  ◌%◌, ◌^◌,
}
use fioplugin.Prelude.Word.{u16}
use fioplugin.Machine.{Log, Platform}
use fioplugin.Poll.Accept.{AreExpected}
use fioplugin.Poll.Protocol.{Completion, Posts, slot_address, tag}
use fioplugin.Sample.{ready}

-- Entry 0 is for command 2 and entry 1 for command 1.
abbrev pub entries : ℕ → Completion
entries zero = record { sqhd = 1; cid = 2; status = 0 }
entries (suc _) = record { sqhd = 2; cid = 1; status = 0 }

-- The completion queue of `ready`, as a function of the byte offset in it.
abbrev cq_bytes : (psf0 psf1 : ℕ) → ℕ → ℕ
cq_bytes psf0 psf1 a =
    if a == 14
    then psf0
    else if a == 12
    then 2
    else if a == 8
    then 1
    else if a == 30
    then psf1
    else if a == 28
    then 1
    else if a == 24
    then 2
    else 0

abbrev pub device : (psf0 psf1 : ℕ) → Platform
device psf0 psf1 = record {
  reg = λ _ _. 0;
  mem = λ _ _ a. cq_bytes psf0 psf1 (a - 0x9000000);
  open_bar0 = λ _ _ _ _. none;
  mmap = λ _ _ _. none;
  munmap = λ _ _ _. false;
  get_meminfo = λ _ _. none;
  dev_entries = λ _. none;
  open_dev = λ _ _. none;
  get_bdf = λ _ _. none;
}

abbrev pub two : Log → ℕ
two _ = 2

pub device-Posts : Posts (device 1 1) 0x9000000 8 entries two
device-Posts = record {
  psf = λ _ k h _. psf k h;
  cid = λ _ k h _. cid k h;
  sqhd = λ _ k h _. sqhd k h;
  empty = λ _ k e. empty k e;
  more = λ _ _ _. omega arith;
}
  where
    psf :
        (k : ℕ)
        → k < 2
        → u16 ((device 1 1).mem [] 2 (slot_address 0x9000000 8 k + 14))
          ≡ tag 8 k + 2 * (entries k).status
    psf zero h = refl
    psf (suc zero) h = refl
    psf (suc (suc k)) h = absurd (omega arith)

    cid :
        (k : ℕ)
        → k < 2
        → u16 ((device 1 1).mem [] 2 (slot_address 0x9000000 8 k + 12)) ≡ (entries k).cid
    cid zero h = refl
    cid (suc zero) h = refl
    cid (suc (suc k)) h = absurd (omega arith)

    sqhd :
        (k : ℕ)
        → k < 2
        → u16 ((device 1 1).mem [] 2 (slot_address 0x9000000 8 k + 8)) ≡ (entries k).sqhd
    sqhd zero h = refl
    sqhd (suc zero) h = refl
    sqhd (suc (suc k)) h = absurd (omega arith)

    empty :
        (k : ℕ)
        → k ≡ 2
        → u16 ((device 1 1).mem [] 2 (slot_address 0x9000000 8 k + 14)) % 2 ≢ tag 8 k
    empty k e = rw e (λ (z : 0 ≡ 1). absurd (omega arith))

pub entries-AreExpected : AreExpected entries ready.io 0 2
entries-AreExpected = record {
  success = λ j _ h. success j h;
  known = λ j _ h. known j h;
  distinct = λ i j _ a b. distinct i j a b;
}
  where
    success : (j : ℕ) → j < 2 → (entries j).status % 2 ^ 11 ≡ 0
    success zero h = refl
    success (suc j) h = refl

    known : (j : ℕ) → j < 2 → ready.io.cmd_io_u (entries j).cid ≢ 0
    known zero h = λ (z : 502 ≡ 0). absurd (omega arith)
    known (suc j) h = λ (z : 501 ≡ 0). absurd (omega arith)

    distinct : (i j : ℕ) → i < j → j < 2 → (entries i).cid ≢ (entries j).cid
    distinct zero zero a b = absurd (omega arith)
    distinct zero (suc j) a b = λ (z : 2 ≡ 1). absurd (omega arith)
    distinct (suc i) j a b = absurd (omega arith)
