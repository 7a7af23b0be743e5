-- ===== src/Target/Range.antt =====
-- What `parse_target` accepts.
use fioplugin.Prelude.{
  ℕ, ◌≤◌, ◌<◌, ◌≡◌, ◌≢◌, refl, sym, arith, Bool, Option, none, some, List, [], ◌∷◌, ltb, ◌==◌,
  Bool-cases, inl, inr,
}
use fioplugin.Prelude.Word.{u16}
use fioplugin.Nvme.{Controller}
use fioplugin.Target.{
  Strtoul, parse_ulong_field, parse_target, bounded, after_bus, after_dev, after_func, after_nsid,
  delimited, zero_controller,
}

-- A controller of the ranges that the fields allow, all else being 0.
pub record IsTarget (c : Controller) : Type 0 where
  pub bus : c.bus ≤ 0xffff
  pub dev : c.dev ≤ 31
  pub func : c.func ≤ 7
  pub some_nsid : 0 < c.nsid
  pub nsid : c.nsid ≤ 0xffff
  pub rest : c ≡ record zero_controller { bus = c.bus; dev = c.dev; func = c.func; nsid = c.nsid }

none-some : {A : Type 0} {a : A} → none ≢ some a
none-some e = cc

delimited-value :
    (delimiter parsed v : ℕ) (end rest : List ℕ)
    → delimited delimiter parsed end ≡ some (v, rest)
    → parsed ≡ v
unfolding delimited
delimited-value delimiter parsed v [] rest h = ground (arith, h)
delimited-value delimiter parsed v (c ∷ end) rest h = ground (arith, h)

bounded-range :
    (max delimiter v : ℕ) (x : Option (ℕ × List ℕ)) (rest : List ℕ)
    → bounded max delimiter x ≡ some (v, rest)
    → v ≤ max
unfolding bounded
bounded-range max delimiter v none rest h = absurd cc
bounded-range max delimiter v (some (parsed, end)) rest h = elim (Bool-cases (ltb max parsed)) [
  | inl above ↦ absurd (none-some (rw above at h))
  | inr below ↦
      let is : parsed ≡ v = delimited-value delimiter parsed v end rest (rw below at h) in
      ground (arith, below, is)
]

module _ (strtoul : Strtoul) where
  in_range :
      (p : List ℕ) (base max delimiter v : ℕ) (rest : List ℕ)
      → parse_ulong_field strtoul p base max delimiter ≡ some (v, rest)
      → v ≤ max
  unfolding parse_ulong_field
  in_range p base max delimiter v rest h = bounded-range max delimiter v (strtoul p base) rest h

made-IsTarget :
    {bus dev func nsid : ℕ}
    → bus ≤ 0xffff
    → dev ≤ 31
    → func ≤ 7
    → 0 < nsid
    → nsid ≤ 0xffff
    → IsTarget
        (record zero_controller { bus = u16 bus; dev = u16 dev; func = u16 func; nsid = u16 nsid })
made-IsTarget b d f n m = record {
  bus = omega arith;
  dev = omega arith;
  func = omega arith;
  some_nsid = omega arith;
  nsid = omega arith;
  rest = refl;
}

some-IsTarget : {a c : Controller} → some a ≡ some c → IsTarget a → IsTarget c
some-IsTarget {a} {c} e t = let is : a ≡ c = cc in rw (sym is) t

module _ (strtoul : Strtoul) (memory : Bool) (c : Controller) where
  nsid-IsTarget :
      (bus dev func : ℕ) (x : Option (ℕ × List ℕ))
      → bus ≤ 0xffff
      → dev ≤ 31
      → func ≤ 7
      → ((v : ℕ) (rest : List ℕ) → x ≡ some (v, rest) → v ≤ 0xffff)
      → after_nsid memory bus dev func x ≡ some c
      → IsTarget c
  unfolding after_nsid
  nsid-IsTarget bus dev func none b d f small h = absurd cc
  nsid-IsTarget bus dev func (some (nsid, rest)) b d f small h = elim (Bool-cases (nsid == 0)) [
    | inl null ↦ absurd (none-some (rw null at h))
    | inr some_id ↦ elim (Bool-cases memory) [
      | inr exhausted ↦ absurd (none-some (rw (some_id, exhausted) at h))
      | inl there ↦
          let small_id : nsid ≤ 0xffff = small nsid rest refl in
          let is : some (record zero_controller {
            bus = u16 bus;
            dev = u16 dev;
            func = u16 func;
            nsid = u16 nsid;
          })
              ≡ some c =
            rw (some_id, there) at h in
          some-IsTarget is (made-IsTarget b d f (ground (arith, some_id)) small_id)
    ]
  ]

  func-IsTarget :
      (bus dev : ℕ) (x : Option (ℕ × List ℕ))
      → bus ≤ 0xffff
      → dev ≤ 31
      → ((v : ℕ) (rest : List ℕ) → x ≡ some (v, rest) → v ≤ 7)
      → after_func strtoul memory bus dev x ≡ some c
      → IsTarget c
  unfolding after_func
  func-IsTarget bus dev none b d small h = absurd (none-some h)
  func-IsTarget bus dev (some (func, p)) b d small h =
      nsid-IsTarget bus dev func _ b d (small func p refl) (in_range strtoul p 10 0xffff 0) h

  dev-IsTarget :
      (bus : ℕ) (x : Option (ℕ × List ℕ))
      → bus ≤ 0xffff
      → ((v : ℕ) (rest : List ℕ) → x ≡ some (v, rest) → v ≤ 31)
      → after_dev strtoul memory bus x ≡ some c
      → IsTarget c
  unfolding after_dev
  dev-IsTarget bus none b small h = absurd (none-some h)
  dev-IsTarget bus (some (dev, p)) b small h =
      func-IsTarget bus dev _ b (small dev p refl) (in_range strtoul p 16 7 44) h

  bus-IsTarget :
      (x : Option (ℕ × List ℕ))
      → ((v : ℕ) (rest : List ℕ) → x ≡ some (v, rest) → v ≤ 0xffff)
      → after_bus strtoul memory x ≡ some c
      → IsTarget c
  unfolding after_bus
  bus-IsTarget none small h = absurd (none-some h)
  bus-IsTarget (some (bus, p)) small h =
      dev-IsTarget bus _ (small bus p refl) (in_range strtoul p 16 31 46) h

  -- Whatever `strtoul` reads, a controller that `parse_target` makes has a bus of 16 bits, a device
  -- of at most 31, a function of at most 7 and a namespace from 1 to 65535, and all else is 0.
  pub parse_target-IsTarget :
      (name : Option (List ℕ)) → parse_target strtoul memory name ≡ some c → IsTarget c
  unfolding parse_target
  parse_target-IsTarget none h = absurd (none-some h)
  parse_target-IsTarget (some p) h = bus-IsTarget _ (in_range strtoul p 16 0xffff 58) h
