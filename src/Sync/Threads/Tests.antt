-- ===== src/Sync/Threads/Tests.antt =====
-- Runs of threads that call xal_index() and xal_mark_dirty() (src/xal.c).
use xal.Base.{ℕ, ◌+◌, ◌%◌, ◌≡◌, refl, true, false, arith, u32_mod}
use xal.Sync.{clean, dirty, indexing, is_dirty, mark_dirty, mark_index_done, bump_seq}
use xal.Sync.Threads.{
  idle, entered, announced, writing, written, returned, World, enter, announce, begin, finish,
  complete, mark, Reach, here, next, init, update,
}
use xal.Sync.Threads.Invariant.{Inv, Reach-Inv}
use xal.Sync.Threads.Seqlock.{seqlock_snapshot}
use xal.Sync.Threads.Marks.{Quiet, start, more, mark_survives, quiet_build, announces}

-- A handle published as dirty, whose pools are a number.
abbrev opened : World ℕ
opened = init 0 dirty

abbrev inside : World ℕ
inside = record opened { busy = true; pc = update opened.pc 7 entered }

abbrev told : World ℕ
told = record inside {
  words = record (inside.words) { index_state = indexing };
  marked = false;
  pc = update inside.pc 7 announced;
}

abbrev begun : World ℕ
begun = record told {
  words = bump_seq told.words;
  bumps = told.bumps + 1;
  pc = update told.pc 7 writing;
}

-- Thread 7 is rewriting the pools.
to_begun : Reach opened begun
unfolding init
to_begun = next (next (next here (enter 7 refl refl)) (announce 7 refl)) (begin 7 refl)

Reach-Inv_example : Inv begun
Reach-Inv_example = Reach-Inv 0 dirty to_begun

abbrev begun_marked : World ℕ
begun_marked = record begun { words = mark_dirty begun.words; marked = true }

abbrev ended : World ℕ
ended = record begun_marked {
  words = bump_seq begun_marked.words;
  bumps = begun_marked.bumps + 1;
  pc = update begun_marked.pc 7 (written 0);
}

abbrev done : World ℕ
done = record ended { words = mark_index_done ended.words 0; pc = update ended.pc 7 (returned 0) }

-- The build that runs when the mark comes ends in success.
to_done : Quiet begun_marked done
unfolding init announces
to_done = more (more start (finish 7 0 refl) refl) (complete 7 0 refl) refl

mark_survives_example : (is_dirty done.words ≡ true) × (done.words.index_state ≡ dirty)
mark_survives_example = mark_survives 0 dirty to_begun to_done

quiet_build_example :
    (v : World ℕ) × Reach opened v
    × (v.pools ≡ 5)
    × (v.words.index_state ≡ clean)
    × (v.busy ≡ false)
    × (v.pc 7 ≡ idle)
    × (v.last_err ≡ 0)
    × (v.words.seq_lock ≡ ((opened.words.seq_lock + 1) % u32_mod + 1) % u32_mod)
unfolding init
quiet_build_example = quiet_build opened 7 5 refl refl

abbrev opened_marked : World ℕ
opened_marked = record opened { words = mark_dirty opened.words; marked = true }

seqlock_snapshot_example :
    (opened_marked.pools ≡ opened.pools)
    × (opened_marked.pools ≡ opened.pools)
    × (opened_marked.words.seq_lock ≡ opened.words.seq_lock)
unfolding init mark_dirty
seqlock_snapshot_example =
    seqlock_snapshot (Reach-Inv 0 dirty here) (next here mark) here refl refl (omega arith)
