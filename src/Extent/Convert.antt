-- ===== src/Extent/Convert.antt =====
-- xal_extent_in_bytes() and xal_extent_in_lba() (src/xal.c) beside one another.
use native.Mathlib.Nat.{mul_assoc, mul-div_cancel, mod-eq_of_lt}
use native.Mathlib.Decide.{ℕ_discrete}
use xal.Base.{
  ℕ, ◌*◌, ◌/◌, ◌<◌, ◌≡◌, ap, arith, u64_mod, mul64, Result, ok, err, einval, Option, none, some,
  false, ◌==◌, if◌then◌else◌,
}
use xal.Model.{Backend, xfs, Sb, Extent}
use xal.Extent.Address.{IsGeometry, IsBlock, position, fsbno_offset_lem}
use xal.Extent.{extent_in_bytes, extent_in_lba, Converted, lba, has_noaddr, fsbno_offset}

-- The conversion to logical blocks that the conversion to bytes gives, divided by the block size.
abbrev pub scaled : ℕ → Result Converted → Result Converted
scaled n (err e) = err e
scaled n (ok c) = ok (record {
  start_offset = c.start_offset / n;
  start_block = c.start_block / n;
  size = c.size / n;
  unit = lba;
})

-- With a known logical block size the two conversions fail on the same extents with the same error,
-- and else the second gives the first's numbers in logical blocks, rounded down. With none, the
-- conversion to logical blocks always fails.
pub extent_in_lba-eq-scaled :
    (be : Backend) (sb : Sb) (e : Option Extent)
    → extent_in_lba be sb e
      ≡ (if sb.lba_blksze == 0 then err einval else scaled sb.lba_blksze (extent_in_bytes be sb e))
unfolding extent_in_lba extent_in_bytes
extent_in_lba-eq-scaled be sb none = ground arith
extent_in_lba-eq-scaled be sb (some e) = ground arith

-- A multiple of a whole number of logical blocks is a whole number of them.
whole_blocks : (x b k n : ℕ) → 0 < n → b ≡ k * n → x * b / n * n ≡ x * b
whole_blocks x b k n pos e = rw (e, ← mul_assoc x k n, mul-div_cancel (x * k) pos)

-- On an XFS file system whose size in bytes is a 64-bit number, whose agblklog is below 31, and whose
-- blocks are whole numbers of logical blocks, an extent of its blocks that has an address, and whose
-- byte offset and byte size do not wrap, converts to logical blocks exactly: times the logical block size, the three
-- numbers are the byte offset in the file, the byte size and the byte address.
pub extent_in_lba-exact :
    (sb : Sb) (e : Extent) (k : ℕ)
    → IsGeometry sb
    → IsBlock sb e.start_block
    → sb.blocksize ≡ k * sb.lba_blksze
    → e.start_offset * sb.blocksize < u64_mod
    → e.nblocks * sb.blocksize < u64_mod
    → has_noaddr e.flag ≡ false
    → (d : Converted) × (extent_in_lba xfs sb (some e) ≡ ok d)
      × (d.start_offset * sb.lba_blksze ≡ e.start_offset * sb.blocksize)
      × (d.size * sb.lba_blksze ≡ e.nblocks * sb.blocksize)
      × (d.start_block * sb.lba_blksze ≡ position sb e.start_block * sb.blocksize)
unfolding extent_in_lba
extent_in_lba-exact sb e k g b multiple offset_fits size_fits addr =
    (converted, ground (arith, pos), at_offset, at_size, at_block)
  where
    pos : 0 < sb.lba_blksze
    pos = elim (ℕ_discrete sb.lba_blksze 0) [
      | yes z ↦ absurd (omega (arith, g.some_bytes, multiple, ap (λ (t : ℕ). k * t) z))
      | no nz ↦ omega arith
    ]

    converted : Converted
    converted = record {
      start_offset = mul64 e.start_offset sb.blocksize / sb.lba_blksze;
      start_block = fsbno_offset xfs sb e.start_block / sb.lba_blksze;
      size = mul64 e.nblocks sb.blocksize / sb.lba_blksze;
      unit = lba;
    }

    at_offset : converted.start_offset * sb.lba_blksze ≡ e.start_offset * sb.blocksize
    at_offset =
        rw (mod-eq_of_lt offset_fits)
          (whole_blocks e.start_offset sb.blocksize k sb.lba_blksze pos multiple)

    at_size : converted.size * sb.lba_blksze ≡ e.nblocks * sb.blocksize
    at_size =
        rw (mod-eq_of_lt size_fits)
          (whole_blocks e.nblocks sb.blocksize k sb.lba_blksze pos multiple)

    at_block : converted.start_block * sb.lba_blksze ≡ position sb e.start_block * sb.blocksize
    at_block =
        rw ((fsbno_offset_lem sb e.start_block g b).0)
          (whole_blocks (position sb e.start_block) sb.blocksize k sb.lba_blksze pos multiple)
