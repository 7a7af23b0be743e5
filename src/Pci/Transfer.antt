-- ===== src/Pci/Transfer.antt =====
-- What a configuration access has done when it ends, and that it ends.
use fioplugin.Prelude.{
  ℕ, suc, ◌+◌, ◌-◌, ◌≤◌, ◌<◌, ◌≡◌, refl, sym, arith, Bool, false, some, List, [], ◌∷◌, ltb, ◌==◌,
  length, ⊤, Bool-cases, inl, inr, ◌⊎◌, ap, ==→eq,
}
use fioplugin.Pci.{
  Direction, Answer, interrupted, error, count, open_rw, open_ro, transfer, close, Trace, Outcome,
  transfer_loop,
}

-- The bytes that the calls have transferred, the newest first: direction, position, index and number.
abbrev pub pieces : Trace → List (Direction × ℕ × ℕ × ℕ)
pieces [] = []
pieces (open_rw bus dev func ∷ trace) = pieces trace
pieces (open_ro bus dev func ∷ trace) = pieces trace
pieces (transfer d pos index asked interrupted ∷ trace) = pieces trace
pieces (transfer d pos index asked error ∷ trace) = pieces trace
pieces (transfer d pos index asked (count n) ∷ trace) = (d, pos, index, n) ∷ pieces trace
pieces (close ∷ trace) = pieces trace

-- One behind the other they are the first `done` bytes of the buffer, at `offset` of the file.
abbrev pub InOrder : Direction → (offset done : ℕ) → List (Direction × ℕ × ℕ × ℕ) → Type 0
InOrder d offset done [] = done ≡ 0
InOrder d offset done ((way, pos, index, n) ∷ older) =
    (way ≡ d) × (pos ≡ offset + index) × (index + n ≡ done) × InOrder d offset index older

abbrev pub closes : Trace → ℕ
closes [] = 0
closes (open_rw bus dev func ∷ trace) = closes trace
closes (open_ro bus dev func ∷ trace) = closes trace
closes (transfer d pos index asked answer ∷ trace) = closes trace
closes (close ∷ trace) = suc (closes trace)

-- The kernel transfers at most what is asked for.
abbrev pub WithinAsked : (sz done : ℕ) → List Answer → Type 0
WithinAsked sz done [] = ⊤
WithinAsked sz done (interrupted ∷ answers) = WithinAsked sz done answers
WithinAsked sz done (error ∷ answers) = ⊤
WithinAsked sz done (count n ∷ answers) = (n ≤ sz - done) × WithinAsked sz (done + n) answers

abbrev pub interruptions : List Answer → ℕ
interruptions [] = 0
interruptions (interrupted ∷ answers) = suc (interruptions answers)
interruptions (error ∷ answers) = interruptions answers
interruptions (count n ∷ answers) = interruptions answers

-- The last transfer failed or had nothing to transfer, and the file was closed behind it.
pub record IsCut (d : Direction) (trace : Trace) : Type 0 where
  pub pos : ℕ
  pub index : ℕ
  pub asked : ℕ
  pub answer : Answer
  pub older : Trace
  pub fails : (answer ≡ error) ⊎ (answer ≡ count 0)
  pub calls : trace ≡ close ∷ transfer d pos index asked answer ∷ older

-- How a transfer ends: with all bytes in order and the file closed, the result being that of
-- `close`; or with a failure, the bytes before it in order and the file closed.
pub data Ended (d : Direction) (close_ok : Bool) (offset sz : ℕ) : Bool → Trace → Type 0 where
  complete :
      {trace : Trace}
      → InOrder d offset sz (pieces trace)
      → closes trace ≡ 1
      → Ended d close_ok offset sz close_ok trace
  cut :
      {trace : Trace} (done : ℕ)
      → done < sz
      → InOrder d offset done (pieces trace)
      → closes trace ≡ 1
      → IsCut d trace
      → Ended d close_ok offset sz false trace

pub record Ends (d : Direction) (close_ok : Bool) (offset sz : ℕ) (o : Outcome) : Type 0 where
  pub result : Bool
  pub trace : Trace
  pub returns : o ≡ some (result, trace)
  pub ended : Ended d close_ok offset sz result trace

module _ (d : Direction) (close_ok : Bool) (offset sz : ℕ) where
  finished :
      (done : ℕ) (trace : Trace)
      → done ≤ sz
      → (ltb done sz) ≡ false
      → InOrder d offset done (pieces trace)
      → closes trace ≡ 0
      → Ends d close_ok offset sz (some (close_ok, close ∷ trace))
  finished done trace small full order unclosed =
      let all : done ≡ sz = ground (arith, small, full) in
      record {
        result = close_ok;
        trace = close ∷ trace;
        returns = refl;
        ended = complete (rw (sym all) order) (omega (arith, unclosed));
      }

  failed :
      (done : ℕ) (trace : Trace) {o : Outcome}
      → done < sz
      → InOrder d offset done (pieces trace)
      → closes trace ≡ 0
      → o ≡ some (false, close ∷ trace)
      → IsCut d (close ∷ trace)
      → Ends d close_ok offset sz o
  failed done trace short order unclosed e stop = record {
    result = false;
    trace = close ∷ trace;
    returns = e;
    ended = cut done short order (omega (arith, unclosed)) stop;
  }

  transfer-IsCut :
      {pos index asked : ℕ} {answer : Answer} {older trace : Trace}
      → trace ≡ close ∷ transfer d pos index asked answer ∷ older
      → (answer ≡ error) ⊎ (answer ≡ count 0)
      → IsCut d trace
  transfer-IsCut {pos} {index} {asked} {answer} {older} calls fails = record {
    pos = pos;
    index = index;
    asked = asked;
    answer = answer;
    older = older;
    fails = fails;
    calls = calls;
  }

  -- The answers are enough: one for each byte left and each interruption.
  pub transfer_loop-Ends :
      (done : ℕ) (answers : List Answer) (trace : Trace)
      → done ≤ sz
      → sz - done + interruptions answers ≤ length answers
      → WithinAsked sz done answers
      → InOrder d offset done (pieces trace)
      → closes trace ≡ 0
      → Ends d close_ok offset sz (transfer_loop d close_ok offset sz done answers trace)
  unfolding transfer_loop
  transfer_loop-Ends done [] trace small enough within order unclosed =
      let full : ltb done sz ≡ false = ground (arith, small, enough) in
      rw full (finished done trace small full order unclosed)
  transfer_loop-Ends done (interrupted ∷ answers) trace small enough within order unclosed =
      elim (Bool-cases (ltb done sz)) [
        | inl short ↦
            rw short (
              transfer_loop-Ends done answers _ small (omega (arith, enough)) within order unclosed)
        | inr full ↦ rw full (finished done trace small full order unclosed)
      ]
  transfer_loop-Ends done (error ∷ answers) trace small enough within order unclosed =
      elim (Bool-cases (ltb done sz)) [
        | inl short ↦ rw short (
            failed done (transfer d (offset + done) done (sz - done) error ∷ trace)
              (ground (arith, short)) order unclosed refl (transfer-IsCut refl (inl refl)))
        | inr full ↦ rw full (finished done trace small full order unclosed)
      ]
  transfer_loop-Ends done (count n ∷ answers) trace small enough (asked, within) order unclosed =
      elim (Bool-cases (ltb done sz)) [
        | inl short ↦ elim (Bool-cases (n == 0)) [
          | inl eof ↦
              rw (short, eof)
                (failed done (transfer d (offset + done) done (sz - done) (count n) ∷ trace)
                  (ground (arith, short)) (refl, refl, ground (arith, eof), order) unclosed refl
                  (transfer-IsCut refl (inr (ap count (==→eq n 0 eof)))))
          | inr some_bytes ↦
              rw (short, some_bytes)
                (transfer_loop-Ends (done + n) answers _ (ground (arith, short, asked))
                  (ground (arith, enough, short, some_bytes)) within (refl, refl, refl, order)
                  unclosed)
        ]
        | inr full ↦ rw full (finished done trace small full order unclosed)
      ]
