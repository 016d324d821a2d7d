-- ===== src/Sync/Threads/Seqlock.antt =====
-- The reader's side of the sequence lock (src/xal.c): two equal even reads bracket a time in which
-- the pools did not change.
use xal.Base.{◌+◌, ◌%◌, ◌<◌, ◌≡◌, ◌⊎◌, inl, inr, refl, arith, u32_mod}
use xal.Sync.Threads.{
  is_active, is_writing, World, Step, refuse, enter, no_dinodes, announce, begin, write, finish,
  complete, keep_err, leave, mark, Reach, here, next,
}
use xal.Sync.Threads.Invariant.{Inv, Reach-keeps-Inv}

module _ {P : Type 0} where
  -- A step bumps, or leaves the count alone; and it changes the pools only at an odd count.
  Step-bumps :
      {w v : World P}
      → Inv w
      → Step w v
      → (w.bumps < v.bumps) ⊎ ((v.bumps ≡ w.bumps) × ((v.pools ≡ w.pools) ⊎ (w.bumps % 2 ≡ 1)))
  unfolding is_active is_writing
  Step-bumps i (refuse t e b) = inr (refl, inl refl)
  Step-bumps i (enter t e b) = inr (refl, inl refl)
  Step-bumps i (no_dinodes t e) = inr (refl, inl refl)
  Step-bumps i (announce t e) = inr (refl, inl refl)
  Step-bumps i (begin t e) = inl (omega arith)
  Step-bumps i (write t p e) = inr (refl, inr (ground (arith, i.turn.odd t)))
  Step-bumps i (finish t x e) = inl (omega arith)
  Step-bumps i (complete t x e) = inr (refl, inl refl)
  Step-bumps i (keep_err t x e) = inr (refl, inl refl)
  Step-bumps i (leave t e) = inr (refl, inl refl)
  Step-bumps i mark = inr (refl, inl refl)

  -- Over any run the count grows, or it stands still; at an even count the pools then do too.
  Reach-bumps :
      {w v : World P}
      → Inv w
      → Reach w v
      → (w.bumps < v.bumps) ⊎ ((v.bumps ≡ w.bumps) × ((v.pools ≡ w.pools) ⊎ (w.bumps % 2 ≡ 1)))
  Reach-bumps i here = inr (refl, inl refl)
  Reach-bumps i (next r s) = ground (arith, Reach-bumps i r, Step-bumps (Reach-keeps-Inv i r) s)

  -- A reader that finds the sequence lock even, and finds the same value again after fewer than
  -- 2 ^ 32 bumps, had the same pools before it at every moment in between: no build began, wrote or
  -- ended, whatever the other threads did.
  pub seqlock_snapshot :
      {w u v : World P}
      → Inv w
      → Reach w u
      → Reach u v
      → w.words.seq_lock % 2 ≡ 0
      → v.words.seq_lock ≡ w.words.seq_lock
      → v.bumps < w.bumps + u32_mod
      → (u.pools ≡ w.pools) × (v.pools ≡ w.pools) × (u.words.seq_lock ≡ w.words.seq_lock)
  seqlock_snapshot {w} {u} {v} i r s even same few =
      let j = Reach-keeps-Inv i r in
      let k = Reach-keeps-Inv j s in
      ground (arith, Reach-bumps i r, Reach-bumps j s, i.counted, j.counted, k.counted)
