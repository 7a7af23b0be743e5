-- ===== src/Machine/Reads.antt =====
-- Volatile reads of memory that the device writes.
use fioplugin.Prelude.{ℕ, ◌∷◌}
use fioplugin.Prelude.Word.{u16}
use fioplugin.Machine.{Event, Log, Platform}

-- A 16-bit read, with the log that it leaves.
abbrev pub look16 : Platform → ℕ → Log → ℕ × Log
look16 p a log = (u16 (p.mem log 2 a), Event.look 2 a ∷ log)

-- The second log is the first after some reads.
pub data LooksFrom (log : Log) : Log → Type 0 where
  here : LooksFrom log log
  next : {log' : Log} (w a : ℕ) → LooksFrom log log' → LooksFrom log (Event.look w a ∷ log')
