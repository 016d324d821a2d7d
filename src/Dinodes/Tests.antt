-- ===== src/Dinodes/Tests.antt =====
-- A disk of one group (src/xal_be_xfs.c) whose inode B+tree is one leaf with one record, of the dinodes 131
-- and 132 and 62 that are free.
use xal.Base.{ℕ, ◌≡◌, refl, Option, none, some, List, [], ◌∷◌, Result, ok, ◌==◌, if◌then◌else◌}
use xal.Model.{Sb, xfs, primary}
use xal.Disk.{Bytes, Device, dev_read, ino_decode_relative}
use xal.Fiemap.State.{Khash}
use xal.Dinodes.{
  Ag, Held, dinodes_retrieve, go_on, retrieve_all, hold, retrieve_groups, retrieve_dinodes_via_iab3,
  block_records, read_iab3_block, check_magic, leaf_records, leaf_record, chunk_read, chunk_dinodes,
  store_dinode, count_dinode, btree_sblock_meta,
}

abbrev number_get : List (ℕ × ℕ) → ℕ → Option ℕ
number_get [] a = none
number_get (e ∷ es) a = let rest = number_get es a in if e.0 == a then some e.1 else rest

abbrev numbers : Khash ℕ ℕ (List (ℕ × ℕ))
numbers = record { empty = []; put = λ m a i. some ((a, i) ∷ m); get = number_get }

abbrev disk_sb : Sb
disk_sb = record {
  blocksize = 4096;
  sectsize = 512;
  inodesize = 512;
  inopblock = 8;
  inopblog = 3;
  icount = 64;
  nallocated = 64;
  rootino = 131;
  agblocks = 100;
  agblklog = 7;
  agcount = 1;
  dirblocksize = 4096;
  lba_blksze = 512;
}

-- Block 3 is the leaf; every other is a part of the chunk.
abbrev leaf_bytes : Bytes
leaf_bytes o =
    if o == 0
    then 0x49
    else if o == 1
    then 0x41
    else if o == 2
    then 0x42
    else if o == 3
    then 0x33
    else if o == 7
    then 1
    else if o == 59
    then 32
    else if o == 60
    then 0xff
    else if o == 61
    then 0xfe
    else if o == 71
    then 0xfc
    else 0

abbrev chunk_bytes : Bytes
chunk_bytes o = if o == 159 then 131 else if o == 671 then 132 else 0

abbrev disk : Device
disk = record {
  mdts_nbytes = 65536;
  lba_nbytes = 512;
  nvm_read = λ slba nlb. some (if slba == 24 then leaf_bytes else chunk_bytes);
}

abbrev group : ℕ → Ag
group seqno = record {
  seqno = seqno;
  offset = 0;
  agf_length = 100;
  agi_count = 64;
  agi_root = 3;
  agi_level = 1;
}

abbrev nothing : Held numbers disk_sb disk
nothing = record { dinodes_map = none; dinodes = none }

abbrev retrieved : Option (List (ℕ × ℕ)) × Result (Unit {0})
retrieved =
    let (h, r) = dinodes_retrieve numbers disk_sb disk primary xfs 2 group none none nothing in
    (h.dinodes_map, r)

-- The two dinodes are in the first two slots.
retrieves_both : retrieved ≡ (some ((132, 1) ∷ (131, 0) ∷ []), ok tt)
unfolding dinodes_retrieve go_on retrieve_all hold retrieve_groups retrieve_dinodes_via_iab3
    block_records read_iab3_block check_magic leaf_records leaf_record chunk_read chunk_dinodes
    store_dinode count_dinode btree_sblock_meta dev_read ino_decode_relative
    xal.Extent.agbno_absolute_offset
retrieves_both = refl
