-- ===== src/Lookup/Tests.antt =====
-- The lookups of src/xal.c on a small index.
use xal.Base.{
  ℕ, ◌+◌, ◌<◌, ◌≡◌, refl, List, [], ◌∷◌, ok, err, enoent, einval, enotdir, some, arith, u32_mod,
}
use xal.Sync.{is_dirty, mark_dirty}
use xal.Sync.Threads.{init}
use xal.Reader.{still}
use xal.Reader.History.{view_of}
use xal.Reader.Sample.{
  a_name, b_name, c_name, sample_seen, sample_pools, sample_history, sample-History,
}
use xal.Lookup.{
  get_inode, search_loop, search_by_traversal, search_remainder, search_level, path_under_basepath,
  strip_prefix, at_boundary, next_component, names_at, child_index, go_on, check_seq, same_name,
}
use xal.Lookup.Sample.{sample_spans}
use xal.Lookup.Split.{search_loop-fuel, components, push}
use xal.Path.Snapshot.{found}
use xal.Lookup.Snapshot.{get_inode-snapshot}
use xal.Lookup.Children.{Child, Leads, last, down}
use xal.Lookup.Children.Names.{first_match, first_match-Searches, next_position}
use xal.Lookup.Content.{get_root, get_extents, get_dentries}
use xal.Lookup.Content.Paths.{content_at_path}
use xal.Lookup.Find.{IsPublished, Directory, get_inode_complete, get_inode_sound}

abbrev b_c : List ℕ
b_c = b'b' ∷ b'/' ∷ b'c' ∷ []

finds_b_c : (get_inode first_match (still sample_seen) (b'/' ∷ b_c)).1 ≡ ok 3
unfolding get_inode search_loop search_by_traversal search_remainder search_level
    path_under_basepath strip_prefix at_boundary next_component names_at child_index go_on check_seq
    same_name first_match next_position is_dirty
finds_b_c = refl

-- What is not there is -ENOENT, and a path that is not absolute is -EINVAL.
misses_c : (get_inode first_match (still sample_seen) (b'/' ∷ b'c' ∷ [])).1 ≡ err enoent
unfolding get_inode search_loop search_by_traversal search_remainder search_level
    path_under_basepath strip_prefix at_boundary next_component names_at child_index go_on check_seq
    same_name first_match next_position is_dirty
misses_c = refl

refuses_relative : (get_inode first_match (still sample_seen) a_name).1 ≡ err einval
unfolding get_inode search_by_traversal search_remainder path_under_basepath strip_prefix
    at_boundary check_seq is_dirty
refuses_relative = refl

sample-IsPublished : IsPublished sample_seen
unfolding is_dirty
sample-IsPublished = record {
  clean = refl;
  even = refl;
  rooted = λ e. omega (arith, e);
  root_in_pool = omega arith;
}

b_of_root : Child sample_pools 0 b_name 2
b_of_root = record { offset = 1; in_span = omega arith; place = refl; called = refl }

c_of_b : Child sample_pools 2 c_name 3
c_of_b = record { offset = 0; in_span = omega arith; place = refl; called = refl }

b_c-Leads : Leads sample_pools (Directory sample_pools) 0 (components b_c) 3
unfolding components push
b_c-Leads = down refl b_of_root (last refl c_of_b)

the_root : get_root (still sample_seen) ≡ some 0
unfolding get_root
the_root = refl

get_inode_complete_example : (get_inode first_match (still sample_seen) (b'/' ∷ b_c)).1 ≡ ok 3
get_inode_complete_example =
    get_inode_complete first_match sample_seen b'b' (b'/' ∷ c_name) 3 first_match-Searches
      sample-IsPublished sample_spans b_c-Leads

get_inode_sound_example : Leads sample_pools (λ _. Unit {0}) 0 (components b_c) 3
get_inode_sound_example =
    get_inode_sound first_match sample_seen b'b' (b'/' ∷ c_name) 3 first_match-Searches
      sample-IsPublished finds_b_c

found_at_9 : get_inode first_match (view_of sample_history) (b'/' ∷ a_name) ≡ (9, ok 1)
unfolding get_inode search_loop search_by_traversal search_remainder search_level
    path_under_basepath strip_prefix at_boundary next_component names_at child_index go_on check_seq
    same_name first_match next_position is_dirty init mark_dirty
found_at_9 = refl

few_bumps : (sample_history 9).bumps < (sample_history 1).bumps + u32_mod
unfolding init
few_bumps = omega arith

get_inode-snapshot_example :
    (get_inode first_match (still (found (view_of sample_history))) (b'/' ∷ a_name)).1 ≡ ok 1
get_inode-snapshot_example =
    get_inode-snapshot first_match sample_history (b'/' ∷ a_name) sample-History found_at_9
      few_bumps

search_loop-fuel_example :
    search_loop first_match (still sample_seen) 5 4 0 b_c
    ≡ search_loop first_match (still sample_seen) 100 4 0 b_c
search_loop-fuel_example =
    search_loop-fuel first_match (still sample_seen) 5 100 4 0 b_c (omega arith) (omega arith)

content_at_path_example :
    ((get_extents first_match (still sample_seen) (b'/' ∷ b_c)).1 ≡ ok 3)
    × ((get_dentries first_match (still sample_seen) (b'/' ∷ b_c)).1 ≡ err enotdir)
content_at_path_example =
    content_at_path first_match sample_seen b'b' (b'/' ∷ c_name) 0 3 first_match-Searches
      sample-IsPublished sample_spans the_root b_c-Leads
