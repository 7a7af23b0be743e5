-- ===== src/Dma/Search.antt =====
-- The search for a device's file in `/dev`: `dma_open_domain`.
use fioplugin.Prelude.{
  ℕ, zero, suc, ◌≡◌, refl, arith, true, false, ◌||◌, not, Option, none, some, List, [], ◌∷◌,
  get_elem?, Bool-cases, Option-cases, inl, inr, ◌⊎◌, if◌then◌else◌,
}
use fioplugin.Machine.{Event, Log, Bdf, Platform}
use mathlib.Core.Logic.{◌↔◌}
use fioplugin.Dma.Tidy.{Grown, same, more, Grown-trans, IsTidy, IsTidy-trans}
use fioplugin.Dma.{is_genpci_name, path_fits, bdf_matches, find_device, dma_open_domain}

module _ (p : Platform) (domain bus dev func : ℕ) where
  abbrev pub Is : Bdf → Type 0
  Is b = (b.domain ≡ domain) × (b.bus ≡ bus) × (b.dev ≡ dev) × (b.func ≡ func)

  -- The name is one of the module's files, with a path that can be built.
  abbrev pub IsCandidate : List ℕ → Type 0
  IsCandidate name = (is_genpci_name name ≡ true) × (path_fits name ≡ true)

  -- After `log` the file of a name was opened, or could not be, and did not tell this address.
  pub record Missed (name : List ℕ) (log : Log) : Type 0 where
    pub before : Log
    pub tried : Grown (Event.open_dev name ∷ before) log
    pub other :
        (fd : ℕ) (b : Bdf)
        → p.open_dev before name ≡ some fd
        → p.get_bdf (Event.open_dev name ∷ before) fd ≡ some b
        → ¬ Is b

  -- The file of a listed name tells the address, and is the only one that is left open; or there is
  -- none, all are closed, and each listed candidate was tried.
  pub data Searched (names : List (List ℕ)) (log : Log) (r : Option ℕ × Log) : Type 0 where
    found :
        (i fd : ℕ) (name : List ℕ) (before : Log) (b : Bdf)
        → get_elem? names i ≡ some name
        → IsCandidate name
        → p.open_dev before name ≡ some fd
        → p.get_bdf (Event.open_dev name ∷ before) fd ≡ some b
        → Is b
        → IsTidy log before
        → r ≡ (some fd, Event.closedir ∷ Event.get_bdf fd ∷ Event.open_dev name ∷ before)
        → Searched names log r
    absent :
        (after : Log)
        → IsTidy log after
        → ((i : ℕ) (name : List ℕ)
            → get_elem? names i ≡ some name
            → IsCandidate name
            → Missed name after)
        → r ≡ (none, Event.closedir ∷ after)
        → Searched names log r

  Missed-later : {name : List ℕ} {a b : Log} → Missed name a → Grown a b → Missed name b
  Missed-later m g = record { before = m.before; tried = Grown-trans m.tried g; other = m.other }

  -- One name that is not the one that is looked for.
  Searched-next :
      (name : List ℕ) {names : List (List ℕ)} {log log' : Log} {r : Option ℕ × Log}
      → IsTidy log log'
      → (IsCandidate name → Missed name log')
      → Searched names log' r
      → Searched (name ∷ names) log r
  Searched-next name t m (found i fd other before b at c opens tells is tidy e) =
      found (suc i) fd other before b at c opens tells is (IsTidy-trans t tidy) e
  Searched-next name {names} t m (absent after tidy missed e) =
      absent after (IsTidy-trans t tidy) all e
    where
      all :
          (i : ℕ) (n : List ℕ)
          → get_elem? (name ∷ names) i ≡ some n
          → IsCandidate n
          → Missed n after
      all zero n at c = let eq : name ≡ n = cc in Missed-later (rw⁻¹ eq (m (rw eq c))) tidy.grown
      all (suc i) n at c = missed i n at c

  bdf_matches_iff : (b : Bdf) → (bdf_matches b domain bus dev func ≡ true) ↔ Is b
  unfolding bdf_matches
  bdf_matches_iff b =
      (λ h. (ground arith, ground arith, ground arith, ground arith), λ is. ground arith)

  skipped-not-IsCandidate :
      (name : List ℕ)
      → (not (is_genpci_name name) || not (path_fits name)) ≡ true
      → ¬ IsCandidate name
  skipped-not-IsCandidate name h (a, b) = ground arith

  tried-IsCandidate :
      (name : List ℕ)
      → (not (is_genpci_name name) || not (path_fits name)) ≡ false
      → IsCandidate name
  tried-IsCandidate name h = (ground arith, ground arith)

  IsTidy-none : (log : Log) → IsTidy log log
  IsTidy-none log = record { grown = same; files = λ fd. refl; dirs = refl }

  IsTidy-open : (name : List ℕ) (log : Log) → IsTidy log (Event.open_dev name ∷ log)
  IsTidy-open name log = record { grown = more _ same; files = λ fd. refl; dirs = refl }

  IsTidy-asked :
      (name : List ℕ) (fd : ℕ) (log : Log)
      → IsTidy log (Event.close fd ∷ Event.get_bdf fd ∷ Event.open_dev name ∷ log)
  IsTidy-asked name fd log = record {
    grown = more _ (more _ (more _ same));
    files = λ x. omega arith;
    dirs = refl;
  }

  -- After a file was opened and asked; `rest` is what goes on when it is not the one.
  asked-Searched :
      (name : List ℕ) (names : List (List ℕ)) (fd : ℕ) (log : Log) {rest : Option ℕ × Log}
      → IsCandidate name
      → p.open_dev log name ≡ some fd
      → Searched names (Event.close fd ∷ Event.get_bdf fd ∷ Event.open_dev name ∷ log) rest
      → (o : Option Bdf) → p.get_bdf (Event.open_dev name ∷ log) fd ≡ o
      → Searched (name ∷ names) log (elim o as (λ _. Option ℕ × Log) [
        | none ↦ rest
        | some b ↦
            if bdf_matches b domain bus dev func
            then (some fd, Event.closedir ∷ Event.get_bdf fd ∷ Event.open_dev name ∷ log)
            else rest
      ])
  asked-Searched name names fd log c opens next none silent =
      Searched-next name (IsTidy-asked name fd log)
        (λ _. record {
          before = log;
          tried = more _ (more _ same);
          other = λ fd' b opens' tells is. let one : fd ≡ fd' = cc in cc;
        })
        next
  asked-Searched name names fd log c opens next (some b) tells =
      elim (Bool-cases (bdf_matches b domain bus dev func)) [
        | inl match ↦ rw match (
            found 0 fd name log b refl c opens tells ((bdf_matches_iff b).0 match) (IsTidy-none log)
              refl)
        | inr miss ↦ rw miss (
            Searched-next name (IsTidy-asked name fd log)
              (λ _. record {
                before = log;
                tried = more _ (more _ same);
                other = λ fd' b' opens' tells' is.
                    let one : fd ≡ fd' = cc in
                    let told : b ≡ b' = cc in cc ((bdf_matches_iff b').1 is);
              })
              next)
      ]

  find_device-Searched :
      (names : List (List ℕ)) (log : Log)
      → Searched names log (find_device p domain bus dev func names log)
  unfolding find_device
  find_device-Searched [] log = absent log (IsTidy-none log) (λ i n at c. cc) refl
  find_device-Searched (name ∷ names) log =
      elim (Bool-cases (not (is_genpci_name name) || not (path_fits name))) [
        | inl skip ↦
            rw (skip, find_device)
              (Searched-next name (IsTidy-none log)
                (λ c. absurd (skipped-not-IsCandidate name skip c))
                (find_device-Searched names log))
        | inr tried ↦ elim (Option-cases (p.open_dev log name)) [
          | inl refused ↦
              rw (tried, refused, find_device)
                (Searched-next name (IsTidy-open name log)
                  (λ c. record { before = log; tried = same; other = λ fd b opens. cc })
                  (find_device-Searched names _))
          | inr (fd, opens) ↦
              rw (tried, opens, find_device)
                (asked-Searched name names fd log (tried-IsCandidate name tried) opens
                  (find_device-Searched names _) _ refl)
        ]
      ]

-- `dma_open_domain` fails where `/dev` cannot be read. Else it returns the file of a listed name that
-- starts with `genpci`, whose path can be built and which tells the address that is looked for, or
-- fails after it has tried all such names without one that tells the address; and either way it has
-- closed each other file that it opened, and the directory.
pub dma_open_domain-Searched :
    (p : Platform) (domain bus dev func : ℕ) (log : Log)
    → ((p.dev_entries log ≡ none)
        × (dma_open_domain p domain bus dev func log ≡ (none, Event.opendir ∷ log)))
      ⊎ ((names : List (List ℕ)) × (p.dev_entries log ≡ some names)
          × Searched p domain bus dev func names
              (Event.opendir ∷ log)
              (dma_open_domain p domain bus dev func log))
unfolding dma_open_domain
dma_open_domain-Searched p domain bus dev func log = elim (Option-cases (p.dev_entries log)) [
  | inl unread ↦ inl (unread, rw (unread, dma_open_domain) refl)
  | inr (names, listed) ↦ inr (
    names,
    listed,
    rw (listed, dma_open_domain) (find_device-Searched p domain bus dev func names _),
  )
]
