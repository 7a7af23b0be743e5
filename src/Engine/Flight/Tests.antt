-- ===== src/Engine/Flight/Tests.antt =====
-- A thread that has queued two requests, gets them back and queues another.
use fioplugin.Prelude.{
  ℕ, zero, suc, ◌+◌, ◌%◌, ◌≡◌, ◌≢◌, ◌<◌, ◌≤◌, refl, arith, List, [], ◌∷◌, some, leb, ne→==, sym,
  false,
}
use fioplugin.Engine.{Ddir}
use fioplugin.Engine.Flight.{
  Client, Turn, submit, collect, run_turn, run_turns, count, holds, identifiers, Serves, AllAllowed,
  IsBalanced, one_if,
}
use fioplugin.Engine.Flight.Table.{holds_beyond}
use fioplugin.Engine.Flight.Delivered.{collect-IsBalanced}
use fioplugin.Engine.Flight.Run.{run_turns-IsBalanced}
use fioplugin.Sample.{ready, under_way}
use fioplugin.Sample.Completions.{entries, device, two, device-Posts, entries-AreExpected}

abbrev waiting : Client
waiting = record { state = ready; sent = 502 ∷ 501 ∷ []; done = [] }

abbrev fetched : ℕ → ℕ
fetched j = j

holds-three : (x : ℕ) → x ≢ 0 → holds x under_way 3 ≡ one_if x 502 + one_if x 501
unfolding holds
holds-three x nz = rw (ne→== 0 x (λ e. nz (sym e))) (omega arith)

waiting-account : (x : ℕ) → x ≢ 0 → count x (502 ∷ 501 ∷ []) ≡ 0 + holds x under_way identifiers
waiting-account x nz =
    omega (arith, holds_beyond x under_way 3 identifiers nz past (omega arith), holds-three x nz)
  where
    past : (c : ℕ) → 3 ≤ c → under_way c ≡ 0
    past zero h = refl
    past (suc zero) h = absurd (omega arith)
    past (suc (suc zero)) h = absurd (omega arith)
    past (suc (suc (suc c))) h = refl

waiting-IsBalanced : IsBalanced (device 1 1) entries two fetched waiting
waiting-IsBalanced = record {
  tail = refl;
  head = refl;
  behind = omega arith;
  not_full = omega arith;
  sq_small = omega arith;
  cq_head = refl;
  cq_phase = refl;
  cq_pos = omega arith;
  cq_small = omega arith;
  shift = omega arith;
  answers = record { posts = device-Posts; kept = λ _ _. omega arith };
  account = waiting-account;
}

waiting-Serves : Serves (device 1 1) entries two fetched waiting
waiting-Serves = record {
  last = 2;
  reached = omega arith;
  bounded = λ _ _. omega arith;
  lap = omega arith;
  expected = entries-AreExpected;
  sqhd = λ j _ h. sqhd j h;
  onward = λ j _ _. omega arith;
  submitted = λ j _ h. omega arith;
}
  where
    sqhd : (j : ℕ) → j < 2 → (entries j).sqhd ≡ suc j % 8
    sqhd zero h = refl
    sqhd (suc zero) h = refl
    sqhd (suc (suc j)) h = absurd (omega arith)

-- It waits for up to four completions, and queues a write.
abbrev writes : Turn
writes =
    submit (record { orig_buffer = 0xa000100; num_range = 1; has_mrt = false })
      (record {
        ptr = 503;
        ddir = Ddir.write;
        offset = 0x2000;
        xfer_buflen = 0x1000;
        xfer_buf = 0xa001100;
        number_trim = 0;
        trim_ranges = λ _. record { start = 0; len = 0 };
      })

abbrev turns : List Turn
turns = collect (λ i. leb 2 i) 2 1 4 ∷ writes ∷ []

writes-AllAllowed : (w : Client) → AllAllowed (device 1 1) entries two fetched (writes ∷ []) w
unfolding run_turn
writes-AllAllowed w = (tt, tt)

turns-AllAllowed : AllAllowed (device 1 1) entries two fetched turns waiting
turns-AllAllowed =
    let (w', runs, b) =
      collect-IsBalanced waiting waiting-IsBalanced waiting-Serves (λ i. leb 2 i) 2 1 4 refl
        (omega arith) in
    ((refl, omega arith, waiting-Serves), rw runs (writes-AllAllowed w'))

run_turns-IsBalanced_example :
    (w' : Client) × (run_turns (device 1 1) turns waiting ≡ some w')
    × IsBalanced (device 1 1) entries two fetched w'
run_turns-IsBalanced_example =
    run_turns-IsBalanced turns waiting waiting-IsBalanced turns-AllAllowed
