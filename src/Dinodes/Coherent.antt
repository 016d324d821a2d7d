-- ===== src/Dinodes/Coherent.antt =====
-- The map of dinodes (src/xal_be_xfs.c) gives for a number a dinode of that number.
use xal.Base.{ℕ, ◌<◌, ◌≡◌, none, some, Result, ok, err, ◌==◌, if◌then◌else◌}
use xal.Model.{Sb}
use xal.Disk.{Bytes, di_ino, Device}
use xal.Fiemap.State.{Khash}
use xal.Dinodes.{Store, Held, held_dinode, Lookup, missing, found, undefined}

-- The documented behaviour of a table with numbers for keys.
pub record IsKhash {M : Type 0} (k : Khash ℕ ℕ M) : Type 0 where
  pub get_empty : (a : ℕ) → k.get k.empty a ≡ none
  pub get_put :
      (m : M) (a i : ℕ) {m' : M}
      → k.put m a i ≡ some m'
      → (b : ℕ) → k.get m' b ≡ (if a == b then some i else k.get m b)

-- A lookup of a number that fails in order, or gives a dinode of that number.
abbrev pub IsOwn : ℕ → Lookup → Type 0
IsOwn ino missing = Unit {0}
IsOwn ino (found d) = di_ino d ≡ ino
IsOwn ino undefined = ⊥

module _ {M : Type 0} (kh : Khash ℕ ℕ M) (law : IsKhash kh) (sb : Sb) (dev : Device) where
  -- A number is mapped to a slot that is filled, by a dinode of that number.
  pub Coherent : Store M → Type 0
  Coherent s = (ino i : ℕ) → kh.get s.map ino ≡ some i → (i < s.index) × (di_ino (s.slots i) ≡ ino)

  -- A step that keeps it, whatever it returns.
  abbrev Keeps : (Store M → Store M × Result (Unit {0})) → Type 0
  Keeps f = (s : Store M) → Coherent s → Coherent (f s).0

  abbrev CoherentOut : Store M × Result (Unit {0}) → Type 0
  CoherentOut r = Coherent r.0

  -- The slots with a dinode copied into the next.
  abbrev with_slot : Bytes → Store M → ℕ → Bytes
  with_slot d s i = if i == s.index then d else s.slots i

  -- For each number, dinodes_get() fails in order, or gives a dinode of that number.
  pub record FindsOwn (h : Held kh sb dev) : Type 0 where
    pub own : (ino : ℕ) → IsOwn ino (held_dinode kh sb dev h ino)

  -- What each result means for the handle. An error leaves no dinodes to index from.
  abbrev pub Settled : Held kh sb dev × Result (Unit {0}) → Type 0
  Settled (h, ok _) = FindsOwn h
  Settled (h, err e) = h.dinodes ≡ none
