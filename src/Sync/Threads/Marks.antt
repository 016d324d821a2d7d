-- ===== src/Sync/Threads/Marks.antt =====
-- What becomes of a mark, and that an undisturbed build ends clean (src/xal.c).
use xal.Base.{ℕ, ◌+◌, ◌%◌, ◌≡◌, refl, Bool, true, false, arith, u32_mod}
use xal.Sync.{IndexState, clean, dirty, indexing, is_dirty, mark_dirty, mark_index_done, bump_seq}
use xal.Sync.Threads.{
  Pc, idle, entered, announced, writing, written, returned, recorded, World, Step, refuse, enter,
  no_dinodes, announce, begin, write, finish, complete, keep_err, leave, mark, Reach, here, next,
  init, update,
}
use xal.Sync.Threads.Invariant.{Reach-keeps-Inv, Reach-Inv}

update_self : (f : ℕ → Pc) (t : ℕ) (a : Pc) → update f t a t ≡ a
update_self f t a = ground arith

module _ {P : Type 0} where
  unfoldable pub announces : {w v : World P} → Step w v → Bool
  announces (announce t e) = true
  announces _ = false

  -- A run in which no build announces itself.
  pub data Quiet (w : World P) : World P → Type 0 where
    start : Quiet w w
    more : {u v : World P} → Quiet w u → (s : Step u v) → announces s ≡ false → Quiet w v

  Step-marked :
      {w v : World P} (s : Step w v) → announces s ≡ false → w.marked ≡ true → v.marked ≡ true
  unfolding announces
  Step-marked (announce t e) a m = cc
  Step-marked (refuse t e b) a m = m
  Step-marked (enter t e b) a m = m
  Step-marked (no_dinodes t e) a m = m
  Step-marked (begin t e) a m = m
  Step-marked (write t p e) a m = m
  Step-marked (finish t x e) a m = m
  Step-marked (complete t x e) a m = m
  Step-marked (keep_err t x e) a m = m
  Step-marked (leave t e) a m = m
  Step-marked mark a m = refl

  Quiet-Reach : {w v : World P} → Quiet w v → Reach w v
  Quiet-Reach start = here
  Quiet-Reach (more q s a) = next (Quiet-Reach q) s

  Quiet-marked : {w v : World P} → Quiet w v → w.marked ≡ true → v.marked ≡ true
  Quiet-marked start m = m
  Quiet-marked (more q s a) m = Step-marked s a (Quiet-marked q m)

  -- A mark is not lost: in any run after it the index reads as dirty, also across the end of a build
  -- that was running and succeeds, until another build announces itself.
  pub mark_survives :
      (p : P) (s : IndexState) {w v : World P}
      → Reach (init p s) w
      → Quiet (record w { words = mark_dirty w.words; marked = true }) v
      → (is_dirty v.words ≡ true) × (v.words.index_state ≡ dirty)
  unfolding is_dirty
  mark_survives p s r q =
      let i = Reach-keeps-Inv (Reach-Inv p s (next r mark)) (Quiet-Reach q) in
      ground (arith, i.kept (Quiet-marked q refl))

  -- A build that nobody disturbs succeeds: a thread outside, with the flag clear, can run
  -- xal_index() to its end and leave the pools as its build made them, the index clean, the flag
  -- clear, itself outside, and the sequence lock two further on.
  pub quiet_build :
      (w : World P) (t : ℕ) (p : P)
      → w.pc t ≡ idle
      → w.busy ≡ false
      → (v : World P) × Reach w v
        × (v.pools ≡ p)
        × (v.words.index_state ≡ clean)
        × (v.busy ≡ false)
        × (v.pc t ≡ idle)
        × (v.last_err ≡ 0)
        × (v.words.seq_lock ≡ ((w.words.seq_lock + 1) % u32_mod + 1) % u32_mod)
  unfolding bump_seq mark_index_done
  quiet_build w t p out free = (end, run, refl, refl, refl, update_self f6 t idle, refl, refl)
    where
      f1 : ℕ → Pc
      f1 = update w.pc t entered

      f2 : ℕ → Pc
      f2 = update f1 t announced

      f3 : ℕ → Pc
      f3 = update f2 t writing

      f4 : ℕ → Pc
      f4 = update f3 t (written 0)

      f5 : ℕ → Pc
      f5 = update f4 t (returned 0)

      f6 : ℕ → Pc
      f6 = update f5 t recorded

      end : World P
      end = record {
        words = record {
          index_state = clean;
          seq_lock = ((w.words.seq_lock + 1) % u32_mod + 1) % u32_mod;
        };
        busy = false;
        last_err = 0;
        pools = p;
        pc = update f6 t idle;
        bumps = w.bumps + 1 + 1;
        marked = false;
      }

      bracket : Reach w (record end {
        busy = true;
        last_err = w.last_err;
        words = record (end.words) { index_state = indexing };
        pc = f4;
      })
      bracket =
          next
            (next
              (next (next (next here (enter t out free)) (announce t (update_self w.pc t entered)))
                (begin t (update_self f1 t announced)))
              (write t p (update_self f2 t writing)))
            (finish t 0 (update_self f2 t writing))

      run : Reach w end
      run =
          next
            (next (next bracket (complete t 0 (update_self f3 t (written 0))))
              (keep_err t 0 (update_self f4 t (returned 0))))
            (leave t (update_self f5 t recorded))
