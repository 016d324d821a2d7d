-- ===== src/Disk/Tests.antt =====
-- The XFS format of src/xal_be_xfs.c on small inputs.
use xal.Base.{◌≡◌, arith}
use xal.Model.{Sb}
use xal.Disk.{ino_decode_absolute}
use xal.Disk.Number.{ino_number, ino_decode_absolute-number}

-- Groups of up to 2 ^ 7 blocks of 8 inodes.
abbrev small_sb : Sb
small_sb = record {
  blocksize = 4096;
  sectsize = 512;
  inodesize = 512;
  inopblock = 8;
  inopblog = 3;
  icount = 64;
  nallocated = 64;
  rootino = 128;
  agblocks = 100;
  agblklog = 7;
  agcount = 4;
  dirblocksize = 4096;
  lba_blksze = 512;
}

ino_decode_absolute-number_example :
    ino_decode_absolute small_sb (ino_number small_sb 3 99 5) ≡ (3, 99, 5)
ino_decode_absolute-number_example =
    ino_decode_absolute-number small_sb 3 99 5 (omega arith) (omega arith) (omega arith)
      (omega arith)
