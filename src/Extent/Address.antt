-- ===== src/Extent/Address.antt =====
-- xal_fsbno_offset() (src/xal.c) and xal_agbno_absolute_offset() (src/xal_be_xfs.c): the byte address
-- of a block of an XFS file system.
use native.Mathlib.Nat.{
  le-mul_of_pos_right, mul-le-mul_right, mul-add-div_right, div-eq_of_lt, mod-eq_of_lt,
  div-add-mod', add-mul,
}
use native.Mathlib.Decide.{dec_lt}
use xal.Base.{
  ℕ, ◌+◌, ◌*◌, ◌/◌, ◌%◌, ◌^◌, ◌≤◌, ◌<◌, ◌≡◌, ◌≢◌, ◌⊎◌, inl, inr, ap, ◌∙◌, sym, arith, u64_mod,
  low_bits, shr, add64, mul64,
}
use xal.Model.{Sb, xfs}
use xal.Extent.{fsbno_offset}

-- The number of the group in a block number, and that of the block in its group.
abbrev pub group : Sb → ℕ → ℕ
group sb fsbno = shr fsbno sb.agblklog

abbrev pub block : Sb → ℕ → ℕ
block sb fsbno = low_bits fsbno sb.agblklog

-- A file system whose size in bytes is a `uint64_t`, with an `agblklog` for which C defines the mask of
-- xal_fsbno_offset().
pub record IsGeometry (sb : Sb) : Type 0 where
  pub int_shift : sb.agblklog < 31
  pub some_bytes : 0 < sb.blocksize
  pub log : sb.agblocks ≤ 2 ^ sb.agblklog
  pub fits : sb.agcount * sb.agblocks * sb.blocksize < u64_mod

-- A block number of the file system.
pub record IsBlock (sb : Sb) (fsbno : ℕ) : Type 0 where
  pub in_fs : group sb fsbno < sb.agcount
  pub in_group : block sb fsbno < sb.agblocks

-- The position of a block in the file system, the groups laid end to end.
abbrev pub position : Sb → ℕ → ℕ
position sb fsbno = group sb fsbno * sb.agblocks + block sb fsbno

position-lt :
    (sb : Sb) (fsbno : ℕ) → IsBlock sb fsbno → position sb fsbno < sb.agcount * sb.agblocks
position-lt sb fsbno b = omega (
  arith,
  b.in_group,
  add-mul (group sb fsbno) 1 sb.agblocks,
  mul-le-mul_right {m = group sb fsbno + 1} {n = sb.agcount} sb.agblocks (omega (arith, b.in_fs)),
)

wrap_free :
    (sb : Sb) (n : ℕ)
    → IsGeometry sb
    → n < sb.agcount * sb.agblocks
    → (n * sb.blocksize + sb.blocksize ≤ sb.agcount * sb.agblocks * sb.blocksize)
      × (n ≤ n * sb.blocksize)
wrap_free sb n g h = (
  omega (
    arith,
    add-mul n 1 sb.blocksize,
    mul-le-mul_right {m = n + 1} {n = sb.agcount * sb.agblocks} sb.blocksize (omega arith),
  ),
  le-mul_of_pos_right n g.some_bytes,
)

-- On a block of a file system whose size in bytes is a 64-bit number and whose agblklog is below 31, no
-- arithmetic of xal_fsbno_offset() wraps: the address is that of the block's position, the groups laid
-- end to end, and the whole block lies inside the file system.
pub fsbno_offset_lem :
    (sb : Sb) (fsbno : ℕ)
    → IsGeometry sb
    → IsBlock sb fsbno
    → (fsbno_offset xfs sb fsbno ≡ position sb fsbno * sb.blocksize)
      × (fsbno_offset xfs sb fsbno + sb.blocksize ≤ sb.agcount * sb.agblocks * sb.blocksize)
unfolding fsbno_offset
fsbno_offset_lem sb fsbno g b = (
  rw (mask_count, shift_count) exact,
  rw (mask_count, shift_count, exact) (wrap_free sb _ g inside).0,
)
  where
    inside : position sb fsbno < sb.agcount * sb.agblocks
    inside = position-lt sb fsbno b

    small : position sb fsbno * sb.blocksize < u64_mod
    small = omega (arith, g.fits, g.some_bytes, (wrap_free sb _ g inside).0)

    mask_count : sb.agblklog % 32 ≡ sb.agblklog
    mask_count = mod-eq_of_lt {n = sb.agblklog} {m = 32} (omega (arith, g.int_shift))

    shift_count : sb.agblklog % 64 ≡ sb.agblklog
    shift_count = mod-eq_of_lt {n = sb.agblklog} {m = 64} (omega (arith, g.int_shift))

    exact :
        mul64 (add64 (mul64 (group sb fsbno) sb.agblocks) (block sb fsbno)) sb.blocksize
        ≡ position sb fsbno * sb.blocksize
    exact = rw (
      mod-eq_of_lt {n = group sb fsbno * sb.agblocks} {m = u64_mod}
          (omega (arith, small, (wrap_free sb _ g inside).1)),
      mod-eq_of_lt {n = position sb fsbno} {m = u64_mod}
          (omega (arith, small, (wrap_free sb _ g inside).1)),
      mod-eq_of_lt small,
    )

position-injective :
    (sb : Sb) (x y : ℕ) → IsBlock sb x → IsBlock sb y → position sb x ≡ position sb y → x ≡ y
position-injective sb x y bx by e =
    sym (div-add-mod' x (2 ^ sb.agblklog))
    ∙ (rw (groups, blocks) (div-add-mod' y (2 ^ sb.agblklog)))
  where
    pos : 0 < sb.agblocks
    pos = omega (arith, bx.in_group)

    groups : group sb x ≡ group sb y
    groups = omega (
      arith,
      ap (λ (n : ℕ). n / sb.agblocks) e,
      mul-add-div_right pos (group sb x) (block sb x),
      mul-add-div_right pos (group sb y) (block sb y),
      div-eq_of_lt bx.in_group,
      div-eq_of_lt by.in_group,
    )

    blocks : block sb x ≡ block sb y
    blocks = omega (arith, e, ap (λ (n : ℕ). n * sb.agblocks) groups)

-- By xal_fsbno_offset(), two different blocks of a file system whose size in bytes is a 64-bit number and
-- whose agblklog is below 31 do not overlap on the device.
pub fsbno_offset-disjoint :
    (sb : Sb) (x y : ℕ)
    → IsGeometry sb
    → IsBlock sb x
    → IsBlock sb y
    → x ≢ y
    → (fsbno_offset xfs sb x + sb.blocksize ≤ fsbno_offset xfs sb y)
      ⊎ (fsbno_offset xfs sb y + sb.blocksize ≤ fsbno_offset xfs sb x)
fsbno_offset-disjoint sb x y g bx by ne = elim (dec_lt (position sb x) (position sb y)) [
  | yes lt ↦ inl (apart x y bx by lt)
  | no ge ↦ elim (dec_lt (position sb y) (position sb x)) [
    | yes gt ↦ inr (apart y x by bx gt)
    | no le ↦ absurd (ne (position-injective sb x y bx by (omega arith)))
  ]
]
  where
    apart :
        (a b : ℕ)
        → IsBlock sb a
        → IsBlock sb b
        → position sb a < position sb b
        → fsbno_offset xfs sb a + sb.blocksize ≤ fsbno_offset xfs sb b
    apart a b ba bb lt = omega (
      arith,
      (fsbno_offset_lem sb a g ba).0,
      (fsbno_offset_lem sb b g bb).0,
      add-mul (position sb a) 1 sb.blocksize,
      mul-le-mul_right {m = position sb a + 1} {n = position sb b} sb.blocksize (omega arith),
    )
