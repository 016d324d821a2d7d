-- ===== src/Extent/Record.antt =====
-- decode_xfs_extent() (src/xal_be_xfs.c) against the packed record of the XFS format.
use xal.Base.{ℕ, ◌+◌, ◌*◌, ◌/◌, ◌%◌, ◌^◌, ◌≤◌, ◌<◌, ◌≡◌, arith, u64_mod}
use xal.Base.Bits.{bit_or-disjoint}
use xal.Model.{Extent}
use xal.Extent.{decode_xfs_extent, unwritten}

-- The fields of the record: 1 bit of state, 54 of file offset, 52 of start block, 21 of count.
pub record IsPacked (e : Extent) : Type 0 where
  pub offset_bits : e.start_offset < 2 ^ 54
  pub block_bits : e.start_block < 2 ^ 52
  pub count_bits : e.nblocks < 2 ^ 21
  pub flag_bits : e.flag ≤ unwritten

-- The two words of the record, by the layout of the format: nothing is shifted back and forth.
abbrev pub word0 : Extent → ℕ
word0 e = e.flag * 2 ^ 63 + e.start_offset * 2 ^ 9 + e.start_block / 2 ^ 43

abbrev pub word1 : Extent → ℕ
word1 e = (e.start_block % 2 ^ 43) * 2 ^ 21 + e.nblocks

decode_xfs_extent-block :
    (l0 l1 : ℕ)
    → l1 < u64_mod
    → (decode_xfs_extent l0 l1).start_block ≡ l0 % 2 ^ 9 * 2 ^ 43 + l1 / 2 ^ 21
unfolding decode_xfs_extent
decode_xfs_extent-block l0 l1 h = bit_or-disjoint 43 (l0 % 2 ^ 9) (l1 / 2 ^ 21) (omega arith)

-- Decoding the two words of an extent gives the extent.
pub decode-encode : (e : Extent) → IsPacked e → decode_xfs_extent (word0 e) (word1 e) ≡ e
unfolding decode_xfs_extent
decode-encode e p = ground (arith, bit_or-disjoint 43 (word0 e % 2 ^ 9) (word1 e / 2 ^ 21))

-- Every pair of 64-bit words decodes to an extent whose fields are in range, and which packs into
-- the same words: no bit of the record is lost.
pub encode-decode :
    (l0 l1 : ℕ)
    → l0 < u64_mod
    → l1 < u64_mod
    → let e = decode_xfs_extent l0 l1 in IsPacked e × (word0 e ≡ l0) × (word1 e ≡ l1)
unfolding decode_xfs_extent
encode-decode l0 l1 h0 h1 = ground (arith, decode_xfs_extent-block l0 l1 h1)
