-- ===== src/Poll/Loop.antt =====
-- `scan_loop` takes the posted completions in order, and stops where there are no more.
use native.Mathlib.Decide.{dec_lt}
use fioplugin.Prelude.{
  ℕ, zero, suc, ◌+◌, ◌^◌, ◌≤◌, ◌<◌, ◌≡◌, refl, sym, ◌∙◌, ap, ap₂, arith, ◌∷◌, some, Option, ◌⊎◌,
  inl, inr,
}
use fioplugin.Prelude.Word.{u16}
use fioplugin.Machine.{Event, Log, Platform}
use fioplugin.Machine.Reads.{LooksFrom, here, next}
use fioplugin.Nvme.{NvmeData}
use fioplugin.Poll.{Scan, accept, advance, scan_loop}
use fioplugin.Poll.Accept.{accept_run, AreExpected, accept-AreExpected}
use fioplugin.Poll.Entry.{round-empty, round-entry, taken_log, posted_grows}
use mathlib.Core.Path.{subst}
use fioplugin.Poll.Protocol.{Completion, Posts, At, advance-At}

-- What `advance` leaves alone.
advance-fields :
    (base depth : ℕ) (t : Scan)
    → ((advance base depth t).io ≡ t.io)
      × ((advance base depth t).log ≡ t.log)
      × ((advance base depth t).count ≡ u16 (t.count + 1))
unfolding advance
advance-fields base depth t = ground arith

LooksFrom-trans : {a b c : Log} → LooksFrom a b → LooksFrom b c → LooksFrom a c
LooksFrom-trans r here = r
LooksFrom-trans r (next w a q) = next w a (LooksFrom-trans r q)

looks_taken : (cqe : ℕ) (log : Log) → LooksFrom log (taken_log cqe log)
looks_taken cqe log = next _ _ (next _ _ (next _ _ (next _ _ here)))

-- What the loop has done when it ends by itself: it took the `taken` entries from `k` on, and no
-- more, because there were no rounds left or none was posted when it last looked.
pub record Scanned (base depth : ℕ) (entry : ℕ → Completion) (posted : Log → ℕ) (k last left : ℕ)
    (t : Scan) (out : Option Scan) : Type 0 where
  pub taken : ℕ
  pub after : Scan
  pub ends : out ≡ some after
  pub io : after.io ≡ accept_run entry taken k t.count t.io
  pub at : At base depth (k + taken) after
  pub count : after.count ≡ t.count + taken
  pub in_rounds : taken ≤ left
  pub in_posted : k + taken ≤ last
  pub looks : LooksFrom t.log after.log
  pub reached : k + taken ≤ posted after.log
  pub stops : (taken ≡ left) ⊎ ((log : Log) × LooksFrom t.log log × (posted log ≡ k + taken))

module _ {p : Platform} {base depth : ℕ} {entry : ℕ → Completion} {posted : Log → ℕ}
    (device : Posts p base depth entry posted) (pos : 0 < depth) (small : depth < 2 ^ 32) where
  -- The scan after a round that took entry `k`.
  after_entry : ℕ → Scan → Scan
  after_entry k t = advance base depth (record t {
    io = accept t.count (t.io.cmd_io_u (entry k).cid) (entry k).cid (entry k).sqhd t.io;
    log = taken_log t.cqe t.log;
  })

  after_entry_lem :
      (k : ℕ) (t : Scan)
      → after_entry k t
        ≡ advance base depth (record t {
          io = accept t.count (t.io.cmd_io_u (entry k).cid) (entry k).cid (entry k).sqhd t.io;
          log = taken_log t.cqe t.log;
        })
  unfolding after_entry
  after_entry_lem k t = refl

  after_entry-At : {k : ℕ} {t : Scan} → At base depth k t → At base depth (k + 1) (after_entry k t)
  unfolding after_entry accept
  after_entry-At a =
      advance-At (record { head = a.head; cqe = a.cqe; phase = a.phase; depth_is = a.depth_is }) pos
        small

  after_entry-log : (k : ℕ) (t : Scan) → (after_entry k t).log ≡ taken_log t.cqe t.log
  unfolding after_entry
  after_entry-log k t = (advance-fields base depth _).1

  after_entry-io :
      (k : ℕ) (t : Scan)
      → (after_entry k t).io
        ≡ accept t.count (t.io.cmd_io_u (entry k).cid) (entry k).cid (entry k).sqhd t.io
  unfolding after_entry
  after_entry-io k t = (advance-fields base depth _).0

  after_entry-count : (k : ℕ) (t : Scan) → t.count < 65535 → (after_entry k t).count ≡ t.count + 1
  unfolding after_entry
  after_entry-count k t h = (advance-fields base depth _).2 ∙ omega arith

  after_entry-looks : (k : ℕ) (t : Scan) → LooksFrom t.log (after_entry k t).log
  after_entry-looks k t =
      subst (LooksFrom t.log) (sym (after_entry-log k t)) (looks_taken t.cqe t.log)

  after_entry-AreExpected :
      {k last : ℕ} (t : Scan)
      → k < last
      → AreExpected entry t.io k last
      → AreExpected entry (after_entry k t).io (k + 1) last
  after_entry-AreExpected {k} {last} t h e =
      subst (λ (n : NvmeData). AreExpected entry n (k + 1) last) (sym (after_entry-io k t))
        (accept-AreExpected t.count (t.io.cmd_io_u (entry k).cid) (entry k).sqhd h e)

  Scanned-empty :
      {k last left : ℕ} {t : Scan}
      → At base depth k t
      → k ≡ posted t.log
      → posted t.log ≤ last
      → Scanned base depth entry posted k last left t
          (some (record t { log = Event.look 2 (t.cqe + 14) ∷ t.log }))
  Scanned-empty {k} {last} {left} {t} a e h =
      let looked : Scan = record t { log = Event.look 2 (t.cqe + 14) ∷ t.log } in
      let same : k ≡ k + 0 = omega arith in
      let at_k : At base depth k looked = record {
        head = a.head;
        cqe = a.cqe;
        phase = a.phase;
        depth_is = a.depth_is;
      } in
      record {
        taken = 0;
        after = looked;
        ends = refl;
        io = refl;
        at = subst (λ (j : ℕ). At base depth j looked) same at_k;
        count = omega arith;
        in_rounds = omega arith;
        in_posted = omega arith;
        looks = next _ _ here;
        reached = omega (arith, device.more t.log 2 (t.cqe + 14));
        stops = inr (t.log, here, omega arith);
      }

  Scanned-entry :
      {k last left : ℕ} {t : Scan} {out : Option Scan}
      → t.count < 65535
      → Scanned base depth entry posted (k + 1) last left (after_entry k t) out
      → Scanned base depth entry posted k last (suc left) t out
  Scanned-entry {k} {last} {left} {t} {out} h r = record {
    taken = suc r.taken;
    after = r.after;
    ends = r.ends;
    io =
        r.io
        ∙ ap₂ (accept_run entry r.taken (k + 1)) (after_entry-count k t h) (after_entry-io k t);
    at = subst (λ (j : ℕ). At base depth j r.after) (omega arith) r.at;
    count = omega (arith, r.count, after_entry-count k t h);
    in_rounds = omega (arith, r.in_rounds);
    in_posted = omega (arith, r.in_posted);
    looks = LooksFrom-trans (after_entry-looks k t) r.looks;
    reached = omega (arith, r.reached);
    stops = stops_at r.stops;
  }
    where
      stops_at :
          (r.taken ≡ left)
            ⊎ ((log : Log) × LooksFrom (after_entry k t).log log × (posted log ≡ k + 1 + r.taken))
          → (suc r.taken ≡ suc left)
            ⊎ ((log : Log) × LooksFrom t.log log × (posted log ≡ k + suc r.taken))
      stops_at (inl e) = inl (ap suc e)
      stops_at (inr (log, q, e)) = inr (log, LooksFrom-trans (after_entry-looks k t) q, omega arith)

  pub scan_loop-Scanned :
      (left : ℕ) {k last : ℕ} {t : Scan}
      → At base depth k t
      → t.count + left ≤ 65535
      → k ≤ posted t.log
      → ((log : Log) → LooksFrom t.log log → posted log ≤ last)
      → last ≤ k + depth
      → AreExpected entry t.io k last
      → Scanned base depth entry posted k last left t (scan_loop p base left t)
  unfolding scan_loop
  scan_loop-Scanned zero {k} {last} {t} a cnt reach room b e = record {
    taken = 0;
    after = t;
    ends = refl;
    io = refl;
    at = subst (λ (j : ℕ). At base depth j t) (omega arith) a;
    count = omega arith;
    in_rounds = omega arith;
    in_posted = omega (arith, room t.log here);
    looks = here;
    reached = omega arith;
    stops = inl refl;
  }
  scan_loop-Scanned (suc left) {k} {last} {t} a cnt reach room b e =
      elim (dec_lt k (posted t.log)) [
        | no none_posted ↦
            rw (round-empty device a (omega arith), scan_loop)
              (Scanned-empty a (omega arith) (room t.log here))
        | yes entry_posted ↦
            rw (round-entry device a entry_posted room b e, scan_loop, ← after_entry_lem k t)
              (Scanned-entry (omega arith) (
                scan_loop-Scanned left (after_entry-At a)
                  (omega (arith, after_entry-count k t (omega arith)))
                  (omega (arith, posted_grows device (after_entry-looks k t)))
                  (λ log q. room log (LooksFrom-trans (after_entry-looks k t) q)) (omega arith)
                  (after_entry-AreExpected t (omega (arith, room t.log here)) e)))
      ]
