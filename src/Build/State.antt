-- ===== src/Build/State.antt =====
-- What a build reads and writes (src/xal_be_xfs.c), and its way to go on after an error.
use xal.Base.{
  ◌≡◌, refl, ℕ, ◌+◌, ◌%◌, Bool, Option, none, some, List, Result, ok, err, einval, ◌==◌, ◌&&◌, not,
  if◌then◌else◌, leb, u32_mod,
}
use xal.Model.{Sb, Inode, Extent, blank_inode, ft_unknown, ft_reg_file, ft_dir, ft_max}
use xal.Pool.{Pool, Mprotect}
use xal.Disk.{Bytes, Device, di_mode, is_dir_mode, is_reg_mode}

-- What a build reads: the superblock, the map from inode numbers to dinodes (`kh_get`), the device,
-- the kernel's answers to mprotect(), `qsort` by names, and what the variable `err` of
-- process_dinode_dir_extents() holds before anything is stored in it.
pub record Env : Type 0 where
  pub sb : Sb
  pub dinodes : ℕ → Option Bytes
  pub dev : Device
  pub inodes_mprotect : Mprotect
  pub extents_mprotect : Mprotect
  pub qsort : List Inode → List Inode
  pub stale_err : Result (Unit {0})

-- What it writes: the two pools.
pub record Built : Type 0 where
  pub inodes : Pool Inode
  pub extents : Pool Extent

-- A function of the build that returns 0 or an errno, with the pools that it leaves.
abbrev pub Action : Type 0
Action = Built → Built × Result (Unit {0})

-- `if (err) return err;`
unfoldable pub on_success : Built × Result (Unit {0}) → Action → Built × Result (Unit {0})
on_success (b, err e) next = (b, err e)
on_success (b, ok _) next = next b

pub on_success-cong :
    (r : Built × Result (Unit {0})) (f g : Action)
    → ((b : Built) → f b ≡ g b)
    → on_success r f ≡ on_success r g
unfolding on_success
on_success-cong (b, err e) f g same = refl
on_success-cong (b, ok _) f g same = same b

-- Stores an element in a pool's memory.
unfoldable pub store : {A : Type 0} → Pool A → ℕ → A → Pool A
store p i a = record p {
  memory = elim p.memory [ none ↦ none | some m ↦ some (λ j. if j == i then a else m j) ];
}

-- Reads an element of a pool's memory.
unfoldable pub load : {A : Type 0} → Pool A → ℕ → A → A
load p i a = elim p.memory [ none ↦ a | some m ↦ m i ]

abbrev pub inode_of : Built → ℕ → Inode
inode_of b i = load b.inodes i blank_inode

unfoldable pub set_inode : Built → ℕ → Inode → Built
set_inode b i n = record b { inodes = store b.inodes i n }

-- `self->content.dentries.inodes_idx = xal->inodes.free`, a `uint32_t`; the words of a file are the same.
unfoldable pub set_content : Built → ℕ → ℕ → ℕ → Built
set_content b self idx count =
    set_inode b self (record (inode_of b self) {
      content = record { idx = idx % u32_mod; count = count % u32_mod };
    })

-- `self->content.dentries.count += n`
unfoldable pub add_count : Built → ℕ → ℕ → Built
add_count b self n =
    set_content b self (inode_of b self).content.idx ((inode_of b self).content.count + n)

-- `dinodes_get`
unfoldable pub dinodes_get : Env → ℕ → Result Bytes
dinodes_get env ino = elim (env.dinodes ino) [ none ↦ err einval | some d ↦ ok d ]

-- The type that a mode gives an inode of unknown type.
unfoldable pub type_of_mode : ℕ → ℕ
type_of_mode mode =
    if is_dir_mode mode then ft_dir else if is_reg_mode mode then ft_reg_file else ft_unknown

-- The end of `_should_skip`: the type as it is now, and whether the entry is skipped.
unfoldable pub skip_type : ℕ → Result (ℕ × Bool)
skip_type ftype =
    if leb ft_max ftype
    then err einval
    else ok (ftype, not (ftype == ft_dir) && not (ftype == ft_reg_file))

-- `_should_skip`
unfoldable pub should_skip : Env → Inode → Result (ℕ × Bool)
should_skip env dentry =
    if dentry.ftype == ft_unknown
    then elim (env.dinodes dentry.ino) [
      | none ↦ err einval
      | some d ↦ skip_type (type_of_mode (di_mode d))
    ]
    else skip_type dentry.ftype
