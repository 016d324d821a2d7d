-- ===== src/Sync.antt =====
-- The synchronisation of an index build with marks and readers (src/xal.c, src/xal_be_xfs.c): the
-- state of the index, the sequence lock, and the exclusion of a second build.
pub mod Threads
use xal.Base.{ℕ, ◌+◌, ◌%◌, Bool, true, false, Option, none, some, ◌==◌, if◌then◌else◌, u32_mod}

-- `enum xal_state`
pub data IndexState : Type 0 where
  clean dirty indexing : IndexState

-- The two shared words: `index_state`, and `seq_lock`, an `int` whose bit pattern this is.
pub record Words : Type 0 where
  pub index_state : IndexState
  pub seq_lock : ℕ

-- `xal_is_dirty`
unfoldable pub is_dirty : Words → Bool
is_dirty s = elim s.index_state [ clean ↦ false | dirty ↦ true | indexing ↦ true ]

-- `xal_mark_dirty`
unfoldable pub mark_dirty : Words → Words
mark_dirty s = record s { index_state = dirty }

-- `xal_mark_index_done`: after a failed build the index is dirty; after one that succeeded a
-- compare and exchange turns `indexing` alone into `clean`.
unfoldable pub mark_index_done : Words → ℕ → Words
mark_index_done s error =
    if error == 0
    then (elim s.index_state [
      | clean ↦ s
      | dirty ↦ s
      | indexing ↦ record s { index_state = clean }
    ])
    else record s { index_state = dirty }

-- `atomic_fetch_add(xal->seq_lock, 1)`, which wraps.
unfoldable pub bump_seq : Words → Words
bump_seq s = record s { seq_lock = (s.seq_lock + 1) % u32_mod }

-- `exp_seqlock & 1`
abbrev pub is_odd : ℕ → Bool
is_odd n = n % 2 == 1
