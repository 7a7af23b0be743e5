-- ===== src/Target.antt =====
-- `parse_target` and `parse_ulong_field` of tools/nvme.c: the controller that a file name says, as
-- in `01:00.0,1`. A text is its bytes, and the 0 byte at its end is the end of the list.
pub mod Range
pub mod RoundTrip
mod Tests
use fioplugin.Prelude.{
  ℕ, ◌+◌, Bool, true, false, Option, none, some, List, [], ◌∷◌, ltb, ◌==◌, if◌then◌else◌,
}
use fioplugin.Prelude.Word.{u16}
use fioplugin.Nvme.{Controller, no_mem}

-- `strtoul` of a text in a base: the value and the rest of the text. `none` stands for an error and
-- for a text that does not start with a number.
abbrev pub Strtoul : Type 0
Strtoul = List ℕ → ℕ → Option (ℕ × List ℕ)

-- The test of `*end`: after the delimiter, or at the end of the text if it is 0.
unfoldable pub delimited : (delimiter parsed : ℕ) → List ℕ → Option (ℕ × List ℕ)
delimited delimiter parsed [] = if delimiter == 0 then some (parsed, []) else none
delimited delimiter parsed (c ∷ rest) =
    if delimiter == 0 then none else if c == delimiter then some (parsed, rest) else none

-- The tests after `strtoul`.
unfoldable pub bounded : (max delimiter : ℕ) → Option (ℕ × List ℕ) → Option (ℕ × List ℕ)
bounded max delimiter none = none
bounded max delimiter (some (parsed, end)) =
    if ltb max parsed then none else delimited delimiter parsed end

-- The value of the field, and `*p` after it.
unfoldable pub parse_ulong_field : Strtoul → List ℕ → (base max delimiter : ℕ) → Option (ℕ × List ℕ)
parse_ulong_field strtoul p base max delimiter = bounded max delimiter (strtoul p base)

-- `calloc`
abbrev pub zero_controller : Controller
zero_controller = record {
  bus = 0;
  dev = 0;
  func = 0;
  nsid = 0;
  bar0_phys = 0;
  bar0_virt = 0;
  admin_sq_tail = 0;
  admin_cq_head = 0;
  admin_cq_phase = 0;
  admin_sq_phys_addr = 0;
  admin_sq_virt_addr = 0;
  admin_sq_mem = no_mem;
  admin_cq_phys_addr = 0;
  admin_cq_virt_addr = 0;
  admin_cq_mem = no_mem;
  admin_sq_depth = 0;
  admin_cq_depth = 0;
  admin_cmd_id = 0;
  admin_sq_tail_db = 0;
  admin_cq_head_db = 0;
  lba_shift = 0;
  size = 0;
  dma_fd = 0;
  dma_fd_opened = false;
}

-- After each field, which the argument is; `:` is 58, `.` is 46 and `,` is 44. `memory` says whether
-- `calloc` succeeds.
unfoldable pub after_nsid :
    (memory : Bool) → (bus dev func : ℕ) → Option (ℕ × List ℕ) → Option Controller
after_nsid memory bus dev func none = none
after_nsid memory bus dev func (some (nsid, _)) =
    if nsid == 0
    then none
    else if memory
    then some
        (record zero_controller { bus = u16 bus; dev = u16 dev; func = u16 func; nsid = u16 nsid })
    else none

unfoldable pub after_func :
    Strtoul → (memory : Bool) → (bus dev : ℕ) → Option (ℕ × List ℕ) → Option Controller
after_func strtoul memory bus dev none = none
after_func strtoul memory bus dev (some (func, p)) =
    after_nsid memory bus dev func (parse_ulong_field strtoul p 10 0xffff 0)

unfoldable pub after_dev :
    Strtoul → (memory : Bool) → (bus : ℕ) → Option (ℕ × List ℕ) → Option Controller
after_dev strtoul memory bus none = none
after_dev strtoul memory bus (some (dev, p)) =
    after_func strtoul memory bus dev (parse_ulong_field strtoul p 16 7 44)

unfoldable pub after_bus : Strtoul → (memory : Bool) → Option (ℕ × List ℕ) → Option Controller
after_bus strtoul memory none = none
after_bus strtoul memory (some (bus, p)) =
    after_dev strtoul memory bus (parse_ulong_field strtoul p 16 31 46)

-- The name may be `NULL`.
unfoldable pub parse_target : Strtoul → (memory : Bool) → Option (List ℕ) → Option Controller
parse_target strtoul memory none = none
parse_target strtoul memory (some p) =
    after_bus strtoul memory (parse_ulong_field strtoul p 16 0xffff 58)
