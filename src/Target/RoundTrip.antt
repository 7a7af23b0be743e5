-- ===== src/Target/RoundTrip.antt =====
-- A controller's name, written out and read back.
use fioplugin.Prelude.{
  ℕ, ◌+◌, ◌*◌, ◌/◌, ◌%◌, ◌^◌, ◌≤◌, ◌<◌, ◌≡◌, refl, sym, ◌∙◌, ap, arith, true, false, some, List, [],
  ◌∷◌, ◌++◌, map, ltb, ◌==◌, if◌then◌else◌, ⊤, ◌⊎◌, inl, inr, eq→==, ne→==,
}
use fioplugin.Nvme.{Controller}
use fioplugin.Target.{
  Strtoul, parse_ulong_field, parse_target, bounded, delimited, after_bus, after_dev, after_func,
  after_nsid, zero_controller,
}
use fioplugin.Target.Range.{IsTarget}

-- The value of digits, the highest first.
abbrev pub value_from : (base acc : ℕ) → List ℕ → ℕ
value_from base acc [] = acc
value_from base acc (d ∷ ds) = value_from base (acc * base + d) ds

-- `0` to `9`, then `a` to `f`.
abbrev pub digit_char : ℕ → ℕ
digit_char d = if ltb d 10 then 48 + d else 87 + d

abbrev pub AllBelow : ℕ → List ℕ → Type 0
AllBelow base [] = ⊤
AllBelow base (d ∷ ds) = (d < base) × AllBelow base ds

-- A text that ends there or goes on with a `:`, a `.` or a `,`.
abbrev pub Stops : List ℕ → Type 0
Stops [] = ⊤
Stops (c ∷ _) = (c ≡ 58) ⊎ ((c ≡ 46) ⊎ (c ≡ 44))

-- The manual's words on `strtoul`: in base 10 or 16 it reads the digits at the start of a text, up
-- to the first character that is none, when their value is an `unsigned long`.
pub record ReadsDigits (strtoul : Strtoul) : Type 0 where
  pub reads :
      (base d : ℕ) (ds end : List ℕ)
      → (base ≡ 10) ⊎ (base ≡ 16)
      → AllBelow base (d ∷ ds)
      → value_from base 0 (d ∷ ds) < 2 ^ 64
      → Stops end
      → strtoul (map digit_char (d ∷ ds) ++ end) base ≡ some (value_from base 0 (d ∷ ds), end)

-- The digits of a number below 65536, 256 and 16, and the decimal ones of a number below 100000.
abbrev pub hex4 : ℕ → List ℕ
hex4 n = n / 4096 ∷ n / 256 % 16 ∷ n / 16 % 16 ∷ n % 16 ∷ []

abbrev pub hex2 : ℕ → List ℕ
hex2 n = n / 16 ∷ n % 16 ∷ []

abbrev pub dec5 : ℕ → List ℕ
dec5 n = n / 10000 ∷ n / 1000 % 10 ∷ n / 100 % 10 ∷ n / 10 % 10 ∷ n % 10 ∷ []

-- As `%04x:%02x.%x,%05u` would print it.
abbrev pub print_target : Controller → List ℕ
print_target c =
    map digit_char (hex4 c.bus)
    ++ (58
        ∷ (map digit_char (hex2 c.dev)
            ++ (46
                ∷ (map digit_char (c.func ∷ []) ++ (44 ∷ (map digit_char (dec5 c.nsid) ++ []))))))

bounded_lem :
    (max delimiter v : ℕ) (end : List ℕ)
    → v ≤ max
    → bounded max delimiter (some (v, end)) ≡ delimited delimiter v end
unfolding bounded
bounded_lem max delimiter v end small =
    let inside : ltb max v ≡ false = ground arith in rw inside refl

delimited_lem :
    (delimiter v : ℕ) (rest : List ℕ)
    → (delimiter == 0) ≡ false
    → delimited delimiter v (delimiter ∷ rest) ≡ some (v, rest)
unfolding delimited
delimited_lem delimiter v rest not_end = rw (not_end, eq→== delimiter delimiter refl) refl

ended_lem : (v : ℕ) → delimited 0 v [] ≡ some (v, [])
unfolding delimited
ended_lem v = refl

same_target :
    {b b' d d' f f' n n' : ℕ}
    → b ≡ b'
    → d ≡ d'
    → f ≡ f'
    → n ≡ n'
    → ◌≡◌ {A = Controller}
        (record zero_controller { bus = b; dev = d; func = f; nsid = n })
        (record zero_controller { bus = b'; dev = d'; func = f'; nsid = n' })
same_target p q r s = rw (p, q, r, s) refl

module _ (strtoul : Strtoul) (law : ReadsDigits strtoul) where
  -- A hexadecimal field with its delimiter.
  field_lem :
      (max delimiter d : ℕ) (ds rest : List ℕ) (v : ℕ)
      → AllBelow 16 (d ∷ ds)
      → value_from 16 0 (d ∷ ds) ≡ v
      → v ≤ max
      → max < 2 ^ 64
      → Stops (delimiter ∷ rest)
      → (delimiter == 0) ≡ false
      → parse_ulong_field strtoul (map digit_char (d ∷ ds) ++ (delimiter ∷ rest)) 16 max delimiter
        ≡ some (v, rest)
  unfolding parse_ulong_field
  field_lem max delimiter d ds rest v below is small fits stops not_end =
      ap (bounded max delimiter) (
        law.reads 16 d ds (delimiter ∷ rest) (inr refl) below (omega (arith, is, small, fits)) stops
        ∙ ap (λ x. some (x, delimiter ∷ rest)) is)
      ∙ bounded_lem max delimiter v (delimiter ∷ rest) small
      ∙ delimited_lem delimiter v rest not_end

  -- The decimal field at the end.
  last_lem :
      (max d : ℕ) (ds : List ℕ) (v : ℕ)
      → AllBelow 10 (d ∷ ds)
      → value_from 10 0 (d ∷ ds) ≡ v
      → v ≤ max
      → max < 2 ^ 64
      → parse_ulong_field strtoul (map digit_char (d ∷ ds) ++ []) 10 max 0 ≡ some (v, [])
  unfolding parse_ulong_field
  last_lem max d ds v below is small fits =
      ap (bounded max 0) (
        law.reads 10 d ds [] (inl refl) below (omega (arith, is, small, fits)) tt
        ∙ ap (λ x. some (x, [])) is)
      ∙ bounded_lem max 0 v [] small
      ∙ ended_lem v

  module _ (c : Controller) (t : IsTarget c) where
    nsid_lem :
        after_nsid true c.bus c.dev c.func
          (parse_ulong_field strtoul (map digit_char (dec5 c.nsid) ++ []) 10 0xffff 0)
        ≡ some c
    unfolding after_nsid
    nsid_lem =
        let some_id : (c.nsid == 0) ≡ false = ne→== _ _ (omega (arith, t.some_nsid)) in
        let below : AllBelow 10 (dec5 c.nsid) =
          (omega (arith, t.nsid), (omega arith, (omega arith, (omega arith, (omega arith, tt))))) in
        ap (after_nsid true c.bus c.dev c.func) (
          last_lem 0xffff (c.nsid / 10000)
            (c.nsid / 1000 % 10 ∷ c.nsid / 100 % 10 ∷ c.nsid / 10 % 10 ∷ c.nsid % 10 ∷ []) c.nsid
            below (omega arith) t.nsid (omega arith))
        ∙ rw some_id (
            ap some (
              same_target (omega (arith, t.bus)) (omega (arith, t.dev)) (omega (arith, t.func))
                (omega (arith, t.nsid))
              ∙ sym t.rest))

    func_lem :
        after_func strtoul true c.bus c.dev (
          parse_ulong_field strtoul
            (map digit_char (c.func ∷ []) ++ (44 ∷ (map digit_char (dec5 c.nsid) ++ [])))
            16
            7
            44)
        ≡ some c
    unfolding after_func
    func_lem =
        let below : AllBelow 16 (c.func ∷ []) = (omega (arith, t.func), tt) in
        ap (after_func strtoul true c.bus c.dev) (
          field_lem 7 44 c.func [] _ c.func below (omega arith) t.func (omega arith)
            (inr (inr refl)) refl)
        ∙ nsid_lem

    dev_lem :
        after_dev strtoul true c.bus (
          parse_ulong_field strtoul
            (map digit_char (hex2 c.dev)
              ++ (46
                  ∷ (map digit_char (c.func ∷ []) ++ (44 ∷ (map digit_char (dec5 c.nsid) ++ [])))))
            16
            31
            46)
        ≡ some c
    unfolding after_dev
    dev_lem =
        let below : AllBelow 16 (hex2 c.dev) = (omega (arith, t.dev), (omega arith, tt)) in
        ap (after_dev strtoul true c.bus) (
          field_lem 31 46 (c.dev / 16) (c.dev % 16 ∷ []) _ c.dev below (omega arith) t.dev
            (omega arith) (inr (inl refl)) refl)
        ∙ func_lem

    -- A controller of the ranges that `parse_target` allows, written as `bus:dev.func,nsid`, is read
    -- back as it was, when `strtoul` keeps to its manual.
    pub parse_target-print_target : parse_target strtoul true (some (print_target c)) ≡ some c
    unfolding parse_target after_bus
    parse_target-print_target =
        let below : AllBelow 16 (hex4 c.bus) =
          (omega (arith, t.bus), (omega arith, (omega arith, (omega arith, tt)))) in
        ap (after_bus strtoul true) (
          field_lem 0xffff 58 (c.bus / 4096) (c.bus / 256 % 16 ∷ c.bus / 16 % 16 ∷ c.bus % 16 ∷ [])
            _ c.bus below (omega arith) t.bus (omega arith) (inl refl) refl)
        ∙ dev_lem
