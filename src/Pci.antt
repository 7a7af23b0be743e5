-- ===== src/Pci.antt =====
-- tools/lib/pci_access.c: reads and writes of a device's configuration space, a file of 4096 bytes,
-- in as many system calls as the kernel takes for it.
pub mod Transfer
pub mod Access
mod Tests
use fioplugin.Prelude.{
  ℕ, ◌+◌, ◌-◌, Bool, true, false, ◌&&◌, ◌||◌, not, Option, none, some, List, [], ◌∷◌, ltb, leb,
  ◌==◌, if◌then◌else◌,
}

-- The answer of `pread` or `pwrite`: `EINTR`, another error, or the bytes transferred.
pub data Answer : Type 0 where
  interrupted error : Answer
  count : ℕ → Answer

-- The answer of `open`: a file, `EACCES`, or another error.
pub data Opened : Type 0 where
  file denied refused : Opened

-- The kernel's part of a call: the first and the second `open`, the transfers in order, `close`, and
-- whether `snprintf` has built the path.
pub record Kernel : Type 0 where
  pub path : Bool
  pub open_rw : Opened
  pub open_ro : Opened
  pub answers : List Answer
  pub close : Bool

-- `pread` or `pwrite`.
pub data Direction : Type 0 where
  reads writes : Direction

-- The system calls that were made; `transfer` has the direction, the position in the file, the index in the buffer,
-- the bytes asked for and the answer.
pub data SysCall : Type 0 where
  open_rw open_ro : (bus dev func : ℕ) → SysCall
  transfer : Direction → (pos index asked : ℕ) → Answer → SysCall
  close : SysCall

-- The newest first.
abbrev pub Trace : Type 0
Trace = List SysCall

-- A function's result, `true` standing for 0 and `false` for -1, with the calls that it has made.
-- `none` is a loop that waits for an answer beyond those given.
abbrev pub Outcome : Type 0
Outcome = Option (Bool × Trace)

abbrev pub pcie_config_space_size : ℕ
pcie_config_space_size = 4096

pub pci_bdf_is_valid : (dev func : ℕ) → Bool
pci_bdf_is_valid dev func = ltb dev 32 && ltb func 8

pub pci_config_range_is_valid : (offset sz : ℕ) → Bool
pci_config_range_is_valid offset sz =
    ltb offset pcie_config_space_size && leb sz (pcie_config_space_size - offset)

-- The second `open` of `open_pci_config`.
pub reopen : Opened → (bus dev func : ℕ) → Bool × Trace
reopen file bus dev func = (true, open_ro bus dev func ∷ open_rw bus dev func ∷ [])
reopen denied bus dev func = (false, open_ro bus dev func ∷ open_rw bus dev func ∷ [])
reopen refused bus dev func = (false, open_ro bus dev func ∷ open_rw bus dev func ∷ [])

-- After the first `open`.
pub opened : Kernel → Opened → (bus dev func : ℕ) → Bool × Trace
opened k file bus dev func = (true, open_rw bus dev func ∷ [])
opened k denied bus dev func = reopen k.open_ro bus dev func
opened k refused bus dev func = (false, open_rw bus dev func ∷ [])

-- Whether there is a file.
pub open_pci_config : Kernel → (bus dev func : ℕ) → Bool × Trace
open_pci_config k bus dev func =
    if pci_bdf_is_valid dev func
    then if k.path then opened k k.open_rw bus dev func else (false, [])
    else (false, [])

-- `while (done < sz)` and the `close` behind it, by the answers left. The loops of `pci_config_read`
-- and `pci_config_write` differ in the call that they make.
pub transfer_loop :
    Direction → (close_ok : Bool) → (offset sz done : ℕ) → List Answer → Trace → Outcome
transfer_loop d close_ok offset sz done [] trace =
    if ltb done sz then none else some (close_ok, close ∷ trace)
transfer_loop d close_ok offset sz done (interrupted ∷ answers) trace =
    let again : Outcome =
      transfer_loop d close_ok offset sz done answers
        (transfer d (offset + done) done (sz - done) interrupted ∷ trace) in
    if ltb done sz then again else some (close_ok, close ∷ trace)
transfer_loop d close_ok offset sz done (error ∷ answers) trace =
    if ltb done sz
    then some (false, close ∷ transfer d (offset + done) done (sz - done) error ∷ trace)
    else some (close_ok, close ∷ trace)
transfer_loop d close_ok offset sz done (count n ∷ answers) trace =
    let asked : Trace = transfer d (offset + done) done (sz - done) (count n) ∷ trace in
    let again : Outcome = transfer_loop d close_ok offset sz (done + n) answers asked in
    if ltb done sz
    then if n == 0 then some (false, close ∷ asked) else again
    else some (close_ok, close ∷ trace)

-- After `open_pci_config`.
pub transfer_all : Direction → Kernel → (offset sz : ℕ) → Bool × Trace → Outcome
transfer_all d k offset sz (false, trace) = some (false, trace)
transfer_all d k offset sz (true, trace) = transfer_loop d k.close offset sz 0 k.answers trace

-- `has_buf` says that `buf` is not `NULL`.
pub pci_config_read : Kernel → (bus dev func offset : ℕ) → (has_buf : Bool) → (sz : ℕ) → Outcome
pci_config_read k bus dev func offset has_buf sz =
    if (not has_buf && ltb 0 sz) || not (pci_config_range_is_valid offset sz)
    then some (false, [])
    else transfer_all reads k offset sz (open_pci_config k bus dev func)

pub pci_config_write : Kernel → (bus dev func offset : ℕ) → (has_buf : Bool) → (sz : ℕ) → Outcome
pci_config_write k bus dev func offset has_buf sz =
    if (not has_buf && ltb 0 sz) || not (pci_config_range_is_valid offset sz)
    then some (false, [])
    else transfer_all writes k offset sz (open_pci_config k bus dev func)
