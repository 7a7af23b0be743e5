-- ===== src/Dma/Tidy.antt =====
-- What a search leaves open.
use fioplugin.Prelude.{ℕ, ◌+◌, ◌≡◌, ◌∙◌, arith, [], ◌∷◌, ◌==◌, if◌then◌else◌}
use fioplugin.Machine.{Event, Log}

-- How often a file was asked for its device and closed, and directories were closed.
abbrev pub asked : ℕ → Log → ℕ
asked fd [] = 0
asked fd (Event.get_bdf f ∷ log) = (if f == fd then 1 else 0) + asked fd log
asked fd (e ∷ log) = asked fd log

abbrev pub closed : ℕ → Log → ℕ
closed fd [] = 0
closed fd (Event.close f ∷ log) = (if f == fd then 1 else 0) + closed fd log
closed fd (e ∷ log) = closed fd log

abbrev pub closed_dirs : Log → ℕ
closed_dirs [] = 0
closed_dirs (Event.closedir ∷ log) = 1 + closed_dirs log
closed_dirs (e ∷ log) = closed_dirs log

-- The second log is the first with more events.
pub data Grown (log : Log) : Log → Type 0 where
  same : Grown log log
  more : {log' : Log} (e : Event) → Grown log log' → Grown log (e ∷ log')

pub Grown-trans : {a b c : Log} → Grown a b → Grown b c → Grown a c
Grown-trans r same = r
Grown-trans r (more e q) = more e (Grown-trans r q)

-- Between the two logs each file that was asked was closed, and no directory was.
pub record IsTidy (log log' : Log) : Type 0 where
  pub grown : Grown log log'
  pub files : (fd : ℕ) → asked fd log' + closed fd log ≡ asked fd log + closed fd log'
  pub dirs : closed_dirs log' ≡ closed_dirs log

pub IsTidy-trans : {a b c : Log} → IsTidy a b → IsTidy b c → IsTidy a c
IsTidy-trans t u = record {
  grown = Grown-trans t.grown u.grown;
  files = λ fd. omega (arith, t.files fd, u.files fd);
  dirs = u.dirs ∙ t.dirs;
}
