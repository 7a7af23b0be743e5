-- ===== src/Driver/Calls.antt =====
-- The calls that the kernel makes of the module, and sequences of them.
use fioplugin.Prelude.{
  ℕ, Option, ◌++◌, sym, ◌∙◌, Bool, ◌≡◌, ◌≢◌, ap, true, false, none, some, List, [], ◌∷◌, ◌⊎◌, inl,
  inr, Bool-cases, Option-cases, ⊤,
}
use fioplugin.Driver.{
  Kernel, Run, Grant, find, ◌>>◌, pure, dma_vma_open, dma_vma_close, mmap_dma, genpci_remove,
  add_device, Location,
}
use fioplugin.Driver.Safe.{Safe}
use fioplugin.Driver.File.{Request, genpci_open, genpci_close, genpci_ioctl}

-- The calls: a mapping, the copy of an area, the end of an area, a file that is opened or closed, a
-- request on it, with whether user memory can be reached, a device that goes and one that comes.
pub data Op : Type 0 where
  map : Grant → (d vma length : ℕ) → Op
  fork : (vma copy : ℕ) → Op
  unmap : ℕ → Op
  opened : ℕ → Op
  closed : ℕ → Op
  ioctl : (copies : Bool) → Request → (d : ℕ) → Op
  remove : ℕ → Op
  probe : ℕ → Location → Op

-- The memory that the kernel hands out for a mapping is not in use.
pub record Hands (g : Grant) (d : ℕ) (k : Kernel) : Type 0 where
  pub not_null : d ≢ 0
  pub entry : (e : ℕ) → g.entry ≡ some e → k.entries e ≡ none
  pub buffer : (virt dma : ℕ) → g.buffer ≡ some (virt, dma) → k.coherent virt ≡ false

-- What the kernel sees to before it calls: an area is there, new memory is not in use, and a device is
-- removed once and probed at a new address. Whether the device of a file is there it does not see to.
abbrev pub Allowed : Op → Kernel → Type 0
Allowed (map g d vma length) k = Hands g d k
Allowed (fork vma copy) k = (e : ℕ) × (find vma k.vmas ≡ some e)
Allowed (unmap vma) k = (e : ℕ) × (find vma k.vmas ≡ some e)
Allowed (opened d) k = ⊤
Allowed (closed d) k = ⊤
Allowed (ioctl copies request d) k = ⊤
Allowed (remove d) k = k.devices d ≡ true
Allowed (probe d at) k = k.devices d ≡ false

-- The device of the file that a call is for.
abbrev pub file_of : Op → Option ℕ
file_of (map g d vma length) = some d
file_of (fork vma copy) = none
file_of (unmap vma) = none
file_of (opened d) = some d
file_of (closed d) = some d
file_of (ioctl copies request d) = some d
file_of (remove d) = none
file_of (probe d at) = none

unfoldable pub run_op : Op → Run ⊤
run_op (map g d vma length) = mmap_dma g d vma length >> pure tt
run_op (fork vma copy) = dma_vma_open vma copy
run_op (unmap vma) = dma_vma_close vma
run_op (opened d) = genpci_open d
run_op (closed d) = genpci_close d
run_op (ioctl copies request d) = genpci_ioctl copies request d >> pure tt
run_op (remove d) = genpci_remove d
run_op (probe d at) = add_device d at

unfoldable pub run_ops : List Op → Run ⊤
run_ops [] = pure tt
run_ops (o ∷ os) = run_op o >> run_ops os

-- Each call is allowed in the state that the calls before it lead to.
abbrev pub AllAllowed : List Op → Kernel → Type 0
AllAllowed [] k = ⊤
AllAllowed (o ∷ os) k =
    Allowed o k × elim (run_op o k) [ none ↦ ⊤ | some (u, k') ↦ AllAllowed os k' ]

-- A sequence came to a call for a file whose device has been removed, in a state for which `Q` holds.
pub record Stopped (Q : Kernel → Type 0) (os : List Op) (k : Kernel) : Type 0 where
  pub before : List Op
  pub call : Op
  pub after : List Op
  pub splits : os ≡ before ++ call ∷ after
  pub state : Kernel
  pub ran : run_ops before k ≡ some (tt, state)
  pub holds : Q state
  pub device : ℕ
  pub for_file : file_of call ≡ some device
  pub removed : state.devices device ≡ false

-- The sequence runs to its end, with `Q` there, or comes to such a call.
abbrev pub RunsOr : (Q : Kernel → Type 0) → List Op → Kernel → Type 0
RunsOr Q os k = Safe (run_ops os) k (λ _. Q) ⊎ Stopped Q os k

-- The file of a call, if it is for one, has its device.
abbrev pub There : Op → Kernel → Type 0
There o k = (d : ℕ) → file_of o ≡ some d → k.devices d ≡ true

pub file_of-There :
    (o : Op) (k : Kernel) → There o k ⊎ ((d : ℕ) × (file_of o ≡ some d) × (k.devices d ≡ false))
file_of-There o k = elim (Option-cases (file_of o)) [
  | inl for_none ↦ inl (λ d e. absurd cc)
  | inr (d, e) ↦ elim (Bool-cases (k.devices d)) [
    | inl there ↦ inl (λ a f. let same : d ≡ a = cc in ap k.devices (sym same) ∙ there)
    | inr gone ↦ inr (d, e, gone)
  ]
]
