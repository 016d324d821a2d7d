-- ===== src/Sync/Threads.antt =====
-- Threads that call xal_index() (src/xal.c) on one handle of the XFS backend (xal_be_xfs_index() of
-- src/xal_be_xfs.c), and xal_mark_dirty() from anywhere, one atomic access to a step. What the pools
-- hold is any type; a build rewrites them as often as it likes between its two bumps.
pub mod Invariant
pub mod Seqlock
pub mod Marks
mod Tests
use xal.Base.{ℕ, ◌+◌, ◌%◌, ◌≡◌, Bool, true, false, einval, ◌==◌, if◌then◌else◌}
use xal.Sync.{IndexState, clean, dirty, indexing, Words, mark_dirty, mark_index_done, bump_seq}

-- Where a thread is: outside xal_index(); past the exchange on `indexing`; past the store of
-- XAL_STATE_INDEXING; between the two bumps; past the second, with the build's errno; past
-- xal_mark_index_done(); past the store of `last_index_err`.
pub data Pc : Type 0 where
  idle entered announced writing : Pc
  written returned : ℕ → Pc
  recorded : Pc

pub is_active : Pc → Bool
is_active idle = false
is_active _ = true

pub is_writing : Pc → ℕ
is_writing writing = 1
is_writing _ = 0

abbrev pub update : (ℕ → Pc) → ℕ → Pc → ℕ → Pc
update f t a u = if u == t then a else f u

-- The atomic words of a handle, the pools, and each thread's place. Two fields are not in the
-- program: `bumps` counts the bumps of the sequence lock since the handle was opened, and `marked`
-- says that a mark came after the last store of XAL_STATE_INDEXING.
pub record World (P : Type 0) : Type 0 where
  pub words : Words
  pub busy : Bool
  pub last_err : ℕ
  pub pools : P
  pub pc : ℕ → Pc
  pub bumps : ℕ
  pub marked : Bool

module _ {P : Type 0} where
  pub data Step (w : World P) : World P → Type 0 where
    refuse : (t : ℕ) → w.pc t ≡ idle → w.busy ≡ true → Step w w
    enter :
        (t : ℕ)
        → w.pc t ≡ idle
        → w.busy ≡ false
        → Step w (record w { busy = true; pc = update w.pc t entered })
    no_dinodes :
        (t : ℕ) → w.pc t ≡ entered → Step w (record w { pc = update w.pc t (returned einval) })
    announce :
        (t : ℕ)
        → w.pc t ≡ entered
        → Step w (record w {
          words = record (w.words) { index_state = indexing };
          marked = false;
          pc = update w.pc t announced;
        })
    begin :
        (t : ℕ)
        → w.pc t ≡ announced
        → Step w
            (record w { words = bump_seq w.words; bumps = w.bumps + 1; pc = update w.pc t writing })
    write : (t : ℕ) (p : P) → w.pc t ≡ writing → Step w (record w { pools = p })
    finish :
        (t e : ℕ)
        → w.pc t ≡ writing
        → Step w (record w {
          words = bump_seq w.words;
          bumps = w.bumps + 1;
          pc = update w.pc t (written e);
        })
    complete :
        (t e : ℕ)
        → w.pc t ≡ written e
        → Step w (record w { words = mark_index_done w.words e; pc = update w.pc t (returned e) })
    keep_err :
        (t e : ℕ)
        → w.pc t ≡ returned e
        → Step w (record w { last_err = e; pc = update w.pc t recorded })
    leave :
        (t : ℕ) → w.pc t ≡ recorded → Step w (record w { busy = false; pc = update w.pc t idle })
    mark : Step w (record w { words = mark_dirty w.words; marked = true })

  pub data Reach (w : World P) : World P → Type 0 where
    here : Reach w w
    next : {u v : World P} → Reach w u → Step u v → Reach w v

  -- A handle as it was opened: never indexed, or published as dirty.
  unfoldable pub init : P → IndexState → World P
  init p s = record {
    words = record { index_state = s; seq_lock = 0 };
    busy = false;
    last_err = 0;
    pools = p;
    pc = λ _. idle;
    bumps = 0;
    marked = false;
  }
