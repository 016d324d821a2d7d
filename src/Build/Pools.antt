-- ===== src/Build/Pools.antt =====
-- The pools that a build of src/xal_be_xfs.c leaves: the steps of a directory and of a file keep them valid.
pub mod Extents
pub mod Entries
pub mod Root
use xal.Base.{
  ℕ, zero, suc, ◌+◌, ◌*◌, ◌%◌, ◌^◌, ◌≤◌, ◌<◌, ◌≡◌, refl, sym, ap, Bool, true, false, Option, none,
  some, List, [], ◌∷◌, Result, ok, err, arith, ltb, ◌==◌, ◌&&◌, ◌||◌, not, if◌then◌else◌, u64_mod,
  Bool-cases, inl, inr, Option-cases,
}
use mathlib.Core.Path.{subst}
use xal.Model.{Inode, Extent}
use xal.Pool.{Pool, Mprotect, claim_inodes, claim_extents}
use xal.Pool.Valid.{IsValid}
use xal.Pool.Claim.{claim-IsValid, claim_extents-eq-claim_inodes}
use xal.Disk.{Bytes, lfmt_numrecs}
use xal.Build.State.{Env, Built, Action, on_success, store, set_inode, set_content, add_count}

-- Both pools are valid.
abbrev pub Good : Built → Type 0
Good b = IsValid b.inodes × IsValid b.extents

-- An action that leaves valid pools valid, whatever its result.
abbrev pub Keeps : Action → Type 0
Keeps f = (b : Built) → Good b → Good (f b).0

pub store-IsValid : {A : Type 0} (p : Pool A) (i : ℕ) (a : A) → IsValid p → IsValid (store p i a)
unfolding store
store-IsValid p i a v = record {
  free-le = v.free-le;
  allocated-le = v.allocated-le;
  growby-le = v.growby-le;
  small = v.small;
  bytes = v.bytes;
  indexed = v.indexed;
}

pub set_inode-Good : (b : Built) (i : ℕ) (n : Inode) → Good b → Good (set_inode b i n)
unfolding set_inode
set_inode-Good b i n g = (store-IsValid b.inodes i n g.0, g.1)

pub set_content-Good : (b : Built) (self i n : ℕ) → Good b → Good (set_content b self i n)
unfolding set_content
set_content-Good b self i n g = set_inode-Good b self _ g

pub add_count-Good : (b : Built) (self n : ℕ) → Good b → Good (add_count b self n)
unfolding add_count
add_count-Good b self n g = set_content-Good b self _ _ g

pub on_success-Good :
    (r : Built × Result (Unit {0})) (next : Action)
    → Good r.0
    → Keeps next
    → Good (on_success r next).0
unfolding on_success
on_success-Good (b, err e) next g k = g
on_success-Good (b, ok _) next g k = k b g

-- A claim of a count below half the range of `size_t` keeps a pool valid.
pub inodes-IsValid :
    (m : Mprotect) (p : Pool Inode) (n : ℕ)
    → IsValid p
    → n < 2 ^ 63
    → IsValid (claim_inodes m p n).0
inodes-IsValid m p n v small = claim-IsValid m p n v (omega (arith, v.indexed))

pub extents-IsValid :
    (m : Mprotect) (p : Pool Extent) (n : ℕ)
    → IsValid p
    → n < 2 ^ 63
    → IsValid (claim_extents m p n).0
extents-IsValid m p n v small =
    rw (claim_extents-eq-claim_inodes m p n) (claim-IsValid m p n v (omega (arith, v.indexed)))
