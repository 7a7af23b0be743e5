-- ===== src/Driver/File/Answers.antt =====
-- What the requests answer.
use fioplugin.Prelude.{
  ℕ, ◌+◌, ◌*◌, ◌/◌, ◌%◌, ◌^◌, ◌<◌, ◌≡◌, refl, arith, Bool, true, false, Option, none, some,
  if◌then◌else◌, update,
}
use fioplugin.Prelude.Bits.{bit_and-mask}
use fioplugin.Machine.{Bdf, MemInfo}
use fioplugin.Driver.{Entry, Kernel, Location, Status}
use fioplugin.Driver.Mappings.{Inv}
use fioplugin.Driver.Safe.{Safe, safe->>=, safe-pure}
use fioplugin.Driver.Ioctl.{Found, Marked, info_of, get_memfinfo-Safe, release_mem-Safe, Marked-Inv}
use fioplugin.Driver.File.{
  Request, memfinfo, bdf, release_mem, unknown, Reply, mem, at, efault, enoent, enotty, set_open,
  genpci_open, genpci_close, pci_slot, pci_func, bdf_of, location_of, tell_mem, tell_release,
  genpci_ioctl,
}

-- `b` says where the device is, in the numbers that the bus knows it by.
pub record Locates (l : Location) (b : Bdf) : Type 0 where
  pub domain : b.domain ≡ l.domain
  pub bus : b.bus ≡ l.bus % 2 ^ 8
  pub dev : b.dev < 32
  pub func : b.func < 8
  pub devfn : b.dev * 8 + b.func ≡ l.devfn % 2 ^ 8

bdf_of-Locates : (l : Location) → Locates l (bdf_of l)
unfolding bdf_of
bdf_of-Locates l =
    let slot : pci_slot l.devfn ≡ l.devfn / 8 % 32 = bit_and-mask 5 (l.devfn / 8) 31 refl in
    let func : pci_func l.devfn ≡ l.devfn % 8 = bit_and-mask 3 l.devfn 7 refl in
    record { domain = refl; bus = refl; dev = omega arith; func = omega arith; devfn = omega arith }

-- The outcomes of a request on an open device.
pub data Answered (d : ℕ) (k : Kernel) (copies : Bool) : Request → Reply → Kernel → Type 0 where
  no_mapping :
      {r : Reply} {k' : Kernel}
      → Found k (k.memlist d) none
      → r ≡ enoent
      → k' ≡ k
      → Answered d k copies memfinfo r k'
  newest :
      {r : Reply} {k' : Kernel} (e : Entry) (m : MemInfo)
      → Found k (k.memlist d) (some e)
      → some m ≡ info_of (some e)
      → r ≡ (if copies then mem m else efault)
      → k' ≡ k
      → Answered d k copies memfinfo r k'
  located :
      {r : Reply} {k' : Kernel} (b : Bdf)
      → Locates (k.location d) b
      → r ≡ (if copies then at b else efault)
      → k' ≡ k
      → Answered d k copies bdf r k'
  marks :
      {r : Reply} {k' : Kernel} {virt dma : ℕ} (s : Status)
      → copies ≡ true
      → Marked k virt dma (k.memlist d) s k'
      → r ≡ (tell_release s)
      → Answered d k copies (release_mem virt dma) r k'
  unread :
      {r : Reply} {k' : Kernel} {virt dma : ℕ}
      → copies ≡ false
      → r ≡ efault
      → k' ≡ k
      → Answered d k copies (release_mem virt dma) r k'
  not_known : {r : Reply} {k' : Kernel} → r ≡ enotty → k' ≡ k → Answered d k copies unknown r k'

module _ {k : Kernel} where
  safe-location_of :
      {Q : Location → Kernel → Type 0} (d : ℕ)
      → k.devices d ≡ true
      → Q (k.location d) k
      → Safe (location_of d) k Q
  unfolding location_of
  safe-location_of d alive q = record {
    value = k.location d;
    after = k;
    run = rw (alive, location_of) refl;
    holds = q;
  }

  told :
      (copies : Bool) (d : ℕ) (o : Option MemInfo) (f : Option Entry) {k' : Kernel}
      → k' ≡ k
      → Found k (k.memlist d) f
      → o ≡ info_of f
      → Answered d k copies memfinfo (tell_mem copies o) k'
  unfolding tell_mem
  told copies d none none same found is = no_mapping found refl same
  told copies d none (some e) same found is = cc
  told copies d (some m) none same found is = cc
  told copies d (some m) (some e) same found is = newest e m found is refl same

  pub genpci_ioctl-Answered :
      (copies : Bool) (request : Request) (d : ℕ)
      → Inv k
      → k.devices d ≡ true
      → Safe (genpci_ioctl copies request d) k (Answered d k copies request)
  unfolding genpci_ioctl
  genpci_ioctl-Answered copies memfinfo d i alive =
      safe->>= (get_memfinfo-Safe d i alive)
        λ o k' (same, (f, found, is)). safe-pure _ (told copies d o f same found is)
  genpci_ioctl-Answered copies bdf d i alive =
      safe->>= {Q = λ l k'. (l ≡ k.location d) × (k' ≡ k)} (safe-location_of d alive (refl, refl))
        λ l k' (el, ek). rw el (safe-pure _ (located _ (bdf_of-Locates (k.location d)) refl ek))
  genpci_ioctl-Answered true (release_mem virt dma) d i alive =
      safe->>= (release_mem-Safe virt dma d i alive) λ s k' m. safe-pure _ (marks s refl m refl)
  genpci_ioctl-Answered false (release_mem virt dma) d i alive =
      safe-pure efault (unread refl refl refl)
  genpci_ioctl-Answered copies unknown d i alive = safe-pure enotty (not_known refl refl)

  pub Answered-Inv :
      {copies : Bool} {r : Reply} {k' : Kernel} (request : Request) (d : ℕ)
      → Inv k
      → Answered d k copies request r k'
      → Inv k'
  Answered-Inv memfinfo d i (no_mapping found is same) = rw same i
  Answered-Inv memfinfo d i (newest e m found is told same) = rw same i
  Answered-Inv bdf d i (located b l is same) = rw same i
  Answered-Inv {k' = k'} (release_mem virt dma) d i (marks s c m is) =
      Marked-Inv virt dma (k.memlist d) s k' i m
  Answered-Inv (release_mem virt dma) d i (unread c is same) = rw same i
  Answered-Inv unknown d i (not_known is same) = rw same i

  set_open-Safe :
      (b : Bool) (d : ℕ)
      → k.devices d ≡ true
      → Safe (set_open b d) k (λ _ k'. k' ≡ record k { is_open = update k.is_open d b })
  unfolding set_open
  set_open-Safe b d alive = record {
    value = tt;
    after = record k { is_open = update k.is_open d b };
    run = rw (alive, set_open) refl;
    holds = refl;
  }

  pub genpci_open-Safe :
      (d : ℕ)
      → k.devices d ≡ true
      → Safe (genpci_open d) k (λ _ k'. k' ≡ record k { is_open = update k.is_open d true })
  unfolding genpci_open
  genpci_open-Safe d alive = set_open-Safe true d alive

  pub genpci_close-Safe :
      (d : ℕ)
      → k.devices d ≡ true
      → Safe (genpci_close d) k (λ _ k'. k' ≡ record k { is_open = update k.is_open d false })
  unfolding genpci_close
  genpci_close-Safe d alive = set_open-Safe false d alive

  pub set_open-Inv : (d : ℕ) (b : Bool) → Inv k → Inv (record k { is_open = update k.is_open d b })
  set_open-Inv d b i = record {
    lists = i.lists;
    refs = i.refs;
    used = i.used;
    device = i.device;
    owner = i.owner;
    buffer = i.buffer;
    distinct = i.distinct;
  }
