-- ===== src/Path/Tests.antt =====
-- The paths of src/xal.c on a small index.
use xal.Base.{
  ℕ, false, ◌+◌, ◌<◌, ◌≡◌, refl, List, [], ◌∷◌, ok, err, enametoolong, arith, ltb, if◌then◌else◌,
  length, u32_mod,
}
use xal.Sync.{is_dirty, mark_dirty}
use xal.Sync.Threads.{init}
use xal.Reader.{still}
use xal.Reader.History.{view_of}
use xal.Reader.Sample.{sample_seen, sample_pools, sample_history, sample-History}
use xal.Path.{inode_path, assemble, append_name, copy_name, root_slash, check_seq}
use xal.Path.Bounds.{InBuffer, inode_path-InBuffer, assemble-fuel}
use xal.Path.Chain.{Chain, root, child, inode_path-Chain}
use xal.Path.Snapshot.{found, inode_path-snapshot}

abbrev b_c_path : List ℕ
b_c_path = b'/' ∷ b'b' ∷ b'/' ∷ b'c' ∷ []

path_of_c : (inode_path (still sample_seen) [] 256 3).1 ≡ ok b_c_path
unfolding inode_path assemble append_name copy_name root_slash check_seq is_dirty
path_of_c = refl

path_of_root : (inode_path (still sample_seen) [] 256 0).1 ≡ ok (b'/' ∷ [])
unfolding inode_path assemble append_name copy_name root_slash check_seq is_dirty
path_of_root = refl

too_small : (inode_path (still sample_seen) [] 4 3).1 ≡ err enametoolong
unfolding inode_path assemble append_name copy_name root_slash check_seq is_dirty
too_small = refl

c-Chain : Chain sample_pools 3 b_c_path
unfolding copy_name
c-Chain =
    child 3 2 refl (λ e. omega (arith, e)) (omega arith) (omega arith)
      (child 2 0 refl (λ e. omega (arith, e)) (omega arith) (omega arith) (root 0 refl))

sample_clean : is_dirty sample_seen.words ≡ false
unfolding is_dirty
sample_clean = refl

inode_path-Chain_example :
    (inode_path (still sample_seen) [] 4 3).1
    ≡ (if ltb 4 (length b_c_path + 1) then err enametoolong else ok b_c_path)
inode_path-Chain_example =
    inode_path-Chain sample_seen [] 4 3 c-Chain sample_clean refl (λ e. omega (arith, e)) (λ e. cc)

inode_path-InBuffer_example : InBuffer 5 (inode_path (still sample_seen) [] 5 3)
inode_path-InBuffer_example = inode_path-InBuffer (still sample_seen) [] 5 3

assemble-fuel_example :
    assemble (still sample_seen) 256 4 2 3 [] ≡ assemble (still sample_seen) 256 1000 2 3 []
assemble-fuel_example =
    assemble-fuel (still sample_seen) 256 4 1000 2 3 [] (omega arith) (omega arith)

ends_at_12 : inode_path (view_of sample_history) [] 256 3 ≡ (12, ok b_c_path)
unfolding inode_path assemble append_name copy_name root_slash check_seq is_dirty init mark_dirty
ends_at_12 = refl

few_bumps_12 : (sample_history 12).bumps < (sample_history 1).bumps + u32_mod
unfolding init
few_bumps_12 = omega arith

inode_path-snapshot_example :
    (inode_path (still (found (view_of sample_history))) [] 256 3).1 ≡ ok b_c_path
inode_path-snapshot_example =
    inode_path-snapshot sample_history [] 256 3 sample-History ends_at_12 few_bumps_12
