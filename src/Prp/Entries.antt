-- ===== src/Prp/Entries.antt =====
-- What the loop of `setup_prps` leaves in memory.
use fioplugin.Prelude.{ℕ, zero, suc, ◌+◌, ◌*◌, ◌^◌, ◌≤◌, ◌<◌, ◌≡◌, refl, ◌∙◌, ◌⊎◌, arith}
use fioplugin.Machine.{Log}
use fioplugin.Machine.Memory.{load, load-store, load-frame}
use fioplugin.Prelude.Word.{u64}
use fioplugin.Prp.{write_list}
use native.Mathlib.Nat.{add-zero}

-- Bytes outside the list are as they were.
pub load-write_list-frame :
    (n list page : ℕ) (log : Log) (k x : ℕ)
    → (x + k ≤ list) ⊎ (list + 8 * n ≤ x)
    → load k (write_list n list page log) x ≡ load k log x
unfolding write_list
load-write_list-frame zero list page log k x h = refl
load-write_list-frame (suc n) list page log k x h =
    load-write_list-frame n (list + 8) _ _ k x (omega arith)
    ∙ load-frame k 8 list page log x (omega arith)

-- Entry `j` of the list is the page `j` pages behind the first.
pub load-write_list :
    (n list page : ℕ) (log : Log) (j : ℕ)
    → j < n
    → page + 4096 * n ≤ 2 ^ 64
    → load 8 (write_list n list page log) (list + 8 * j) ≡ page + 4096 * j
unfolding write_list
load-write_list zero list page log j h b = absurd (omega arith)
load-write_list (suc n) list page log zero h b =
    rw (add-zero list, add-zero page)
      (load-write_list-frame n (list + 8) _ _ 8 list (omega arith)
        ∙ load-store 8 8 list page log list (omega arith) (omega arith)
        ∙ ground arith)
load-write_list (suc n) list page log (suc j) h b =
    let no_wrap : u64 (page + 4096) ≡ page + 4096 = omega arith in
    let at : list + 8 * suc j ≡ list + 8 + 8 * j = omega arith in
    rw (no_wrap, at)
      (load-write_list n (list + 8) (page + 4096) _ j (omega arith) (omega arith) ∙ omega arith)
