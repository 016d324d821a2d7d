-- ===== src/Sync/Threads/Invariant.antt =====
-- What holds in every world that threads reach (src/xal.c, xal_index()).
use xal.Base.{ℕ, ◌%◌, ◌≡◌, refl, Bool, true, false, einval, arith, u32_mod}
use xal.Sync.{IndexState, dirty, mark_dirty, mark_index_done, bump_seq}
use xal.Sync.Threads.{
  Pc, idle, entered, announced, writing, written, returned, recorded, is_active, is_writing, update,
  World, Step, refuse, enter, no_dinodes, announce, begin, write, finish, complete, keep_err, leave,
  mark, Reach, here, next, init,
}

-- The flag `indexing`, the bumps and the threads' places: at most one thread is inside, it holds the
-- flag, and the count of bumps is odd exactly while it writes.
pub record Turn (busy : Bool) (bumps : ℕ) (pc : ℕ → Pc) : Type 0 where
  pub exclusive : (t u : ℕ) → is_active (pc t) ≡ true → is_active (pc u) ≡ true → t ≡ u
  pub held : (t : ℕ) → is_active (pc t) ≡ true → busy ≡ true
  pub odd : (t : ℕ) → is_active (pc t) ≡ true → bumps % 2 ≡ is_writing (pc t)
  pub even : busy ≡ false → bumps % 2 ≡ 0

-- A move of the thread that is inside to another place inside.
move_on :
    {busy : Bool} {bumps : ℕ} {pc : ℕ → Pc} (t b : ℕ) (from to : Pc)
    → Turn busy bumps pc
    → pc t ≡ from
    → is_active from ≡ true
    → is_active to ≡ true
    → b % 2 ≡ is_writing to
    → Turn busy b (update pc t to)
move_on {pc = pc} t b from to i e was now h = record {
  exclusive = λ u v x y. ground (arith, i.exclusive t u, i.exclusive t v, i.exclusive u v);
  held = λ u x. i.held t (rw e was);
  odd = λ u x. ground (arith, i.exclusive t u);
  even = λ f. ground (arith, i.held t);
}

-- A thread comes in while the flag is clear.
come_in :
    {busy : Bool} {bumps : ℕ} {pc : ℕ → Pc} (t : ℕ)
    → Turn busy bumps pc
    → busy ≡ false
    → Turn true bumps (update pc t entered)
unfolding is_active is_writing
come_in t i free = record {
  exclusive = λ u v x y. ground (arith, i.held u, i.held v);
  held = λ u x. refl;
  odd = λ u x. ground (arith, i.held u, i.even);
  even = λ f. cc;
}

-- The thread inside goes out and clears the flag.
go_out :
    {busy : Bool} {bumps : ℕ} {pc : ℕ → Pc} (t : ℕ)
    → Turn busy bumps pc
    → pc t ≡ recorded
    → Turn false bumps (update pc t idle)
unfolding is_active is_writing
go_out t i e = record {
  exclusive = λ u v x y. ground (arith, i.exclusive t u, i.exclusive t v);
  held = λ u x. ground (arith, i.exclusive t u);
  odd = λ u x. ground (arith, i.exclusive t u);
  even = λ f. ground (arith, i.odd t);
}

-- The parity of the bumps at the place of the thread inside.
parity :
    {busy : Bool} {bumps : ℕ} {pc : ℕ → Pc} (t : ℕ) (at : Pc)
    → Turn busy bumps pc
    → pc t ≡ at
    → is_active at ≡ true
    → bumps % 2 ≡ is_writing at
parity t at i e a = ground (arith, i.odd t)

module _ {P : Type 0} where
  pub record Inv (w : World P) : Type 0 where
    pub turn : Turn w.busy w.bumps w.pc
    -- The sequence lock counts the bumps, as far as an `int` can.
    pub counted : w.words.seq_lock ≡ w.bumps % u32_mod
    pub kept : w.marked ≡ true → w.words.index_state ≡ dirty

  init-Inv : (p : P) (s : IndexState) → Inv (init p s)
  unfolding init is_active
  init-Inv p s = record {
    turn = record {
      exclusive = λ t u a b. cc;
      held = λ t a. cc;
      odd = λ t a. cc;
      even = λ _. refl;
    };
    counted = refl;
    kept = λ a. cc;
  }

  Step-Inv : {w v : World P} → Step w v → Inv w → Inv v
  unfolding is_active is_writing bump_seq mark_index_done mark_dirty
  Step-Inv (refuse t e b) i = i
  Step-Inv (enter t e b) i = record {
    turn = come_in t i.turn b;
    counted = i.counted;
    kept = i.kept;
  }
  Step-Inv (no_dinodes t e) i = record {
    turn = move_on t _ entered (returned einval) i.turn e refl refl (parity t _ i.turn e refl);
    counted = i.counted;
    kept = i.kept;
  }
  Step-Inv (announce t e) i = record {
    turn = move_on t _ entered announced i.turn e refl refl (parity t _ i.turn e refl);
    counted = i.counted;
    kept = λ f. cc;
  }
  Step-Inv (begin t e) i = record {
    turn =
        move_on t _ announced writing i.turn e refl refl (omega (arith, parity t _ i.turn e refl));
    counted = omega (arith, i.counted);
    kept = i.kept;
  }
  Step-Inv (write t p e) i = record { turn = i.turn; counted = i.counted; kept = i.kept }
  Step-Inv (finish t x e) i = record {
    turn =
        move_on t _ writing (written x) i.turn e refl refl
          (omega (arith, parity t _ i.turn e refl));
    counted = omega (arith, i.counted);
    kept = i.kept;
  }
  Step-Inv (complete t x e) i = record {
    turn = move_on t _ (written x) (returned x) i.turn e refl refl (parity t _ i.turn e refl);
    counted = ground (arith, i.counted);
    kept = λ m. ground (arith, i.kept m);
  }
  Step-Inv (keep_err t x e) i = record {
    turn = move_on t _ (returned x) recorded i.turn e refl refl (parity t _ i.turn e refl);
    counted = i.counted;
    kept = i.kept;
  }
  Step-Inv (leave t e) i = record { turn = go_out t i.turn e; counted = i.counted; kept = i.kept }
  Step-Inv mark i = record { turn = i.turn; counted = i.counted; kept = λ m. refl }

  pub Reach-keeps-Inv : {w v : World P} → Inv w → Reach w v → Inv v
  Reach-keeps-Inv i here = i
  Reach-keeps-Inv i (next r s) = Step-Inv s (Reach-keeps-Inv i r)

  -- In every world that threads reach from an opened handle, whatever order they run in: at most one
  -- thread is inside xal_index(), and it holds the flag; the sequence lock is the number of bumps
  -- as an `int`, whose parity is odd exactly while that thread rewrites the pools, and even while no
  -- thread holds the flag; and a mark that came after the last build announced itself still stands.
  pub Reach-Inv : (p : P) (s : IndexState) {w : World P} → Reach (init p s) w → Inv w
  Reach-Inv p s r = Reach-keeps-Inv (init-Inv p s) r
