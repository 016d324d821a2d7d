-- ===== src/Path/Chain.antt =====
-- The path that xal_inode_path() (src/xal.c) gives on a published index at rest: the names along the
-- chain of parents.
use mathlib.Core.List.{append_assoc, append-nil}
use native.Mathlib.Decide.{dec_lt}
use xal.Base.{
  ℕ, zero, suc, ◌+◌, ◌≤◌, ◌<◌, ◌≡◌, ◌≢◌, List, [], ◌∷◌, ◌++◌, Result, ok, err, arith, length,
  length-append, ltb, if◌then◌else◌, false, enametoolong,
}
use xal.Model.{pool_idx_none}
use xal.Reader.{Pools, Seen, still}
use xal.Sync.{is_dirty, is_odd}
use xal.Path.{copy_name, append_name, assemble, root_slash, check_seq, inode_path}
use xal.Path.Bounds.{length-copy_name}

-- The name of an inode, as `namelen` measures it.
abbrev pub leaf : Pools → ℕ → List ℕ
leaf p i = copy_name (p.inodes.elems i).namelen (p.inodes.elems i).name

-- The names from the root down to an inode, each behind a '/'. Parents stand below their children.
pub data Chain (p : Pools) : ℕ → List ℕ → Type 0 where
  root : (i : ℕ) → (p.inodes.elems i).parent_idx ≡ pool_idx_none → Chain p i []
  child :
      (i j : ℕ) {s : List ℕ}
      → (p.inodes.elems i).parent_idx ≡ j
      → j ≢ pool_idx_none
      → j < i
      → j < p.inodes.allocated
      → Chain p j s
      → Chain p i (s ++ b'/' ∷ leaf p i)

-- The string `s` goes behind `buf`, if all of it and the NUL fit.
abbrev Gives : ℕ → List ℕ → List ℕ → Result (List ℕ) → Type 0
Gives cap buf s r =
    (length buf + length s + 1 ≤ cap → r ≡ ok (buf ++ s))
    × (cap < length buf + length s + 1 → r ≡ err enametoolong)

append_name-Gives :
    (m : Seen) (cap i : ℕ) (buf s : List ℕ) (r : ℕ × Result (List ℕ))
    → Gives cap buf s r.1
    → Gives cap buf
        (s ++ b'/' ∷ leaf m.pools i)
        (append_name (still m) cap i (m.pools.inodes.elems i).namelen r).1
unfolding append_name
append_name-Gives m cap i buf s (t, err e) g =
    ground (arith, length-append s (b'/' ∷ leaf m.pools i))
append_name-Gives m cap i buf s (t, ok b) g = elim (dec_lt cap (length buf + length s + 1)) [
  | yes long ↦ cc (g.1 long)
  | no short ↦
      let given : b ≡ buf ++ s = cc (g.0 (omega arith)) in
      rw given (
        ground (
          arith,
          length-append buf s,
          length-append s (b'/' ∷ leaf m.pools i),
          length-copy_name (m.pools.inodes.elems i).namelen (m.pools.inodes.elems i).name,
          append_assoc buf s (b'/' ∷ leaf m.pools i),
        ))
]

assemble-child :
    (m : Seen) (cap f t i j : ℕ) (buf : List ℕ)
    → (m.pools.inodes.elems i).parent_idx ≡ j
    → j ≢ pool_idx_none
    → j < i
    → j < m.pools.inodes.allocated
    → assemble (still m) cap (suc f) t i buf
      ≡ append_name
          (still m)
          cap
          i
          (m.pools.inodes.elems i).namelen
          (assemble (still m) cap f (t + 3) j buf)
unfolding assemble
assemble-child m cap f t i j buf e ne below alloc = rw e (ground arith)

assemble-Chain :
    (m : Seen) (cap f t i : ℕ) (buf : List ℕ) {s : List ℕ}
    → Chain m.pools i s
    → i < f
    → length buf + 1 ≤ cap
    → Gives cap buf s (assemble (still m) cap f t i buf).1
assemble-Chain m cap zero t i buf c lt fits = absurd (omega arith)
assemble-Chain m cap (suc f) t i buf (root _ e) lt fits =
    unfold assemble in rw e (ground (arith, append-nil buf))
assemble-Chain m cap (suc f) t i buf (child _ j {s = s} e ne below alloc c) lt fits =
    rw (assemble-child m cap f t i j buf e ne below alloc) (
      append_name-Gives m cap i buf s (assemble (still m) cap f (t + 3) j buf)
        (assemble-Chain m cap f (t + 3) j buf c (omega arith) fits))

finish-Gives :
    (m : Seen) (cap : ℕ) (base s : List ℕ) (r : ℕ × Result (List ℕ))
    → Gives cap base s r.1
    → base ++ s ≢ []
    → Gives cap base s (check_seq (still m) m.words.seq_lock (root_slash cap r)).1
unfolding check_seq root_slash
finish-Gives m cap base s (t, err e) g full = g
finish-Gives m cap base s (t, ok []) g full = elim (dec_lt cap (length base + length s + 1)) [
  | yes long ↦ cc (g.1 long)
  | no short ↦ absurd (full (cc (g.0 (omega arith))))
]
finish-Gives m cap base s (t, ok (c ∷ cs)) g full = ground arith

-- On a clean index at rest, an inode whose chain of parents reaches the root has the path that the
-- names along the chain spell behind the base path, where that is not empty; it is returned if it
-- fits in the buffer with its NUL, and the call fails with -ENAMETOOLONG if it does not.
pub inode_path-Chain :
    (m : Seen) (base : List ℕ) (cap i : ℕ) {s : List ℕ}
    → Chain m.pools i s
    → is_dirty m.words ≡ false
    → is_odd m.words.seq_lock ≡ false
    → cap ≢ 0
    → base ++ s ≢ []
    → (inode_path (still m) base cap i).1
      ≡ (if ltb cap (length base + length s + 1) then err enametoolong else ok (base ++ s))
unfolding inode_path
inode_path-Chain m base cap i {s} c clean even pos full = elim (dec_lt cap (length base + 1)) [
  | yes long ↦ ground arith
  | no short ↦
      let g : Gives cap base s (assemble (still m) cap (suc i) 2 i base).1 =
        assemble-Chain m cap (suc i) 2 i base c (omega arith) (omega arith) in
      let g' = finish-Gives m cap base s (assemble (still m) cap (suc i) 2 i base) g full in
      ground arith
]
