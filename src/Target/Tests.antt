-- ===== src/Target/Tests.antt =====
-- Names of controllers, with a `strtoul` of one's own.
use fioplugin.Prelude.{
  ℕ, ◌+◌, ◌-◌, ◌*◌, ◌^◌, ◌≤◌, ◌<◌, ◌≡◌, refl, ◌∙◌, ap, arith, true, false, Option, none, some, List,
  [], ◌∷◌, ◌++◌, map, ltb, leb, ◌&&◌, if◌then◌else◌,
}
use fioplugin.Nvme.{Controller}
use fioplugin.Target.{Strtoul, parse_target, zero_controller}
use fioplugin.Target.Range.{IsTarget, parse_target-IsTarget}
use fioplugin.Target.RoundTrip.{
  value_from, digit_char, AllBelow, Stops, ReadsDigits, print_target, parse_target-print_target,
}

-- The digit that a character is; 99 is none.
abbrev digit_of : ℕ → ℕ
digit_of c = if leb 48 c && leb c 57 then c - 48 else if leb 97 c && leb c 102 then c - 87 else 99

scan : (base acc : ℕ) → List ℕ → ℕ × List ℕ
scan base acc [] = (acc, [])
scan base acc (c ∷ cs) =
    let rest = scan base (acc * base + digit_of c) cs in
    if ltb (digit_of c) base then rest else (acc, c ∷ cs)

abbrev in_long : ℕ × List ℕ → Option (ℕ × List ℕ)
in_long (v, rest) = if ltb v (2 ^ 64) then some (v, rest) else none

abbrev simple : Strtoul
simple [] base = none
simple (c ∷ cs) base = if ltb (digit_of c) base then in_long (scan base 0 (c ∷ cs)) else none

digit_lem : (d : ℕ) → d < 16 → digit_of (digit_char d) ≡ d
digit_lem d h = ground arith

scan-Stops : (base acc : ℕ) (end : List ℕ) → base ≤ 16 → Stops end → scan base acc end ≡ (acc, end)
unfolding scan
scan-Stops base acc [] small h = refl
scan-Stops base acc (c ∷ end) small h =
    let no_digit : ltb (digit_of c) base ≡ false = ground (arith, h) in rw no_digit refl

scan_lem :
    (base acc : ℕ) (ds end : List ℕ)
    → base ≤ 16
    → AllBelow base ds
    → Stops end
    → scan base acc (map digit_char ds ++ end) ≡ (value_from base acc ds, end)
unfolding scan
scan_lem base acc [] end small below stops = scan-Stops base acc end small stops
scan_lem base acc (d ∷ ds) end small (b, below) stops =
    let is : digit_of (digit_char d) ≡ d = digit_lem d (omega arith) in
    let digit : ltb d base ≡ true = ground arith in
    rw (is, digit) (scan_lem base (acc * base + d) ds end small below stops)

simple-ReadsDigits : ReadsDigits simple
simple-ReadsDigits = record {
  reads = λ base d ds end b below fits stops.
      let small : base ≤ 16 = ground (arith, b) in
      let digit : ltb (digit_of (digit_char d)) base ≡ true =
        let is : digit_of (digit_char d) ≡ d = digit_lem d (omega (arith, below.0, small)) in
        ground (arith, is, below.0) in
      let inside : ltb (value_from base 0 (d ∷ ds)) (2 ^ 64) ≡ true = ground (arith, fits) in
      rw digit (ap in_long (scan_lem base 0 (d ∷ ds) end small below stops) ∙ rw inside refl);
}

abbrev first : Controller
first = record zero_controller { bus = 0x1a; dev = 0x1f; func = 7; nsid = 12 }

first-IsTarget : IsTarget first
first-IsTarget = record {
  bus = omega arith;
  dev = omega arith;
  func = omega arith;
  some_nsid = omega arith;
  nsid = omega arith;
  rest = refl;
}

parse_target-print_target_example :
    parse_target simple true (some (print_target first)) ≡ some first
parse_target-print_target_example =
    parse_target-print_target simple simple-ReadsDigits first first-IsTarget

first_read : parse_target simple true (some (print_target first)) ≡ some first
first_read = parse_target-print_target simple simple-ReadsDigits first first-IsTarget

parse_target-IsTarget_example : IsTarget first
parse_target-IsTarget_example =
    parse_target-IsTarget simple true first (some (print_target first)) first_read
