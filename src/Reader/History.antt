-- ===== src/Reader/History.antt =====
-- Views that come from the threads: the sequence lock freezes them.
use xal.Base.{ℕ, zero, suc, ◌+◌, ◌-◌, ◌%◌, ◌≤◌, ◌<◌, ◌≡◌, refl, arith, u32_mod}
use xal.Sync.Threads.{World, Reach, here, next}
use xal.Sync.Threads.Invariant.{Inv, Reach-keeps-Inv}
use xal.Sync.Threads.Seqlock.{seqlock_snapshot}
use xal.Reader.{Pools, View, seq_at, Agree, still}

-- The world at each access of a reader: the threads run on from each access to the next.
pub record History (h : ℕ → World Pools) : Type 0 where
  pub start : Inv (h 0)
  pub run : (t : ℕ) → Reach (h t) (h (suc t))

abbrev pub view_of : (ℕ → World Pools) → View
view_of h t = record { words = (h t).words; pools = (h t).pools }

Reach-trans : {P : Type 0} {u v w : World P} → Reach u v → Reach v w → Reach u w
Reach-trans r here = r
Reach-trans r (next s st) = next (Reach-trans r s) st

reach_on : (h : ℕ → World Pools) → History h → (a k b : ℕ) → b ≡ k + a → Reach (h a) (h b)
reach_on h r a zero b e = let e' : a ≡ b = omega arith in rw (← e') here
reach_on h r a (suc k) b e =
    let e' : b ≡ suc (k + a) = omega arith in
    rw e' (Reach-trans (reach_on h r a k (k + a) refl) (r.run (k + a)))

History-Inv : (h : ℕ → World Pools) → History h → (t : ℕ) → Inv (h t)
History-Inv h r t = Reach-keeps-Inv r.start (reach_on h r 0 t t (omega arith))

-- Between two equal even reads of the sequence lock, with fewer than 2 ^ 32 bumps between them, a view
-- of the threads agrees with the memory standing still as it was at the first.
pub frozen :
    (h : ℕ → World Pools) (a b : ℕ)
    → History h
    → a ≤ b
    → seq_at (view_of h) a % 2 ≡ 0
    → seq_at (view_of h) b ≡ seq_at (view_of h) a
    → (h b).bumps < (h a).bumps + u32_mod
    → Agree (view_of h) (still (view_of h a)) a b
frozen h a b r le even same few t lo hi =
    (seqlock_snapshot (History-Inv h r a) (reach_on h r a (t - a) t (omega arith))
      (reach_on h r t (b - t) b (omega arith)) even same few).0
