-- ===== src/Watch/Lifecycle/Threads.antt =====
-- At most one watch thread runs (src/xal_be_fiemap_inotify.c), and EXITED tells.
use xal.Base.{ℕ, ◌≡◌, refl, true, false, ok, arith}
use xal.Watch.Lifecycle.{
  Watcher, running, free, preparing, created, World, Step, start_anew, start_after_join, create,
  create_fails, finish_start, end_thread, claim, join, is_live, claim_join, make_ready, publish,
}

-- Threads: at most one runs, and EXITED is down exactly while one runs or is about to.
pub record Threads (w : World) : Type 0 where
  pub at_most_one : (a b : ℕ) → w.life a ≡ running → w.life b ≡ running → a ≡ b
  pub live : (a : ℕ) → w.life a ≡ running → w.watcher.exited ≡ false
  pub quiet : (a : ℕ) → w.start ≡ preparing → w.life a ≡ running → ⊥
  pub created_runs : (t : ℕ) → w.start ≡ created t → w.watcher.exited ≡ false → w.life t ≡ running
  pub taken_down : w.start ≡ preparing → w.watcher.exited ≡ false
  pub locked : w.watcher.joinable ≡ true → w.start ≡ free

-- A claim that succeeds takes JOINABLE down and requests the stop, of a thread other than the caller.
pub claim_join_lem :
    (self id : ℕ) (w : Watcher)
    → (claim_join true self w).1 ≡ ok id
    → (w.joinable ≡ true)
      × (id ≡ w.watch_thread_id)
      × ((self ≡ id) → ⊥)
      × ((claim_join true self w).0 ≡ record w { joinable = false; stop = true })
unfolding claim_join
claim_join_lem self id w c = ground (arith, c)

pub step-Threads : {w v : World} → Step w v → Threads w → Threads v
unfolding make_ready publish claim_join is_live
step-Threads {w} (start_anew f l j) i = record {
  at_most_one = i.at_most_one;
  live = λ a x. refl;
  quiet = λ a x y. grind (arith, i.live a);
  created_runs = λ t x y. grind arith;
  taken_down = λ x. refl;
  locked = λ x. grind arith;
}
step-Threads {w} (start_after_join f l j d) i = record {
  at_most_one = λ a b x y. grind (arith, i.at_most_one a b);
  live = λ a x. refl;
  quiet = λ a x y. grind (arith, i.live a);
  created_runs = λ t x y. grind arith;
  taken_down = λ x. refl;
  locked = λ x. grind arith;
}
step-Threads {w} (create id p n) i = record {
  at_most_one = λ a b x y. grind (arith, i.quiet a, i.quiet b);
  live = λ a x. i.taken_down p;
  quiet = λ a x y. grind arith;
  created_runs = λ t x y. grind arith;
  taken_down = λ x. grind arith;
  locked = λ x. grind (arith, i.locked);
}
step-Threads {w} (create_fails e p) i = record {
  at_most_one = i.at_most_one;
  live = λ a x. absurd (i.quiet a p x);
  quiet = λ a x y. grind arith;
  created_runs = λ t x y. grind arith;
  taken_down = λ x. grind arith;
  locked = λ x. refl;
}
step-Threads {w} (finish_start id c) i = record {
  at_most_one = i.at_most_one;
  live = i.live;
  quiet = λ a x y. grind arith;
  created_runs = λ t x y. grind arith;
  taken_down = λ x. grind arith;
  locked = λ x. refl;
}
step-Threads {w} (end_thread id r) i = record {
  at_most_one = λ a b x y. grind (arith, i.at_most_one a b);
  live = λ a x. grind (arith, i.at_most_one a id);
  quiet = λ a x y. grind (arith, i.quiet a);
  created_runs = λ t x y. grind arith;
  taken_down = λ x. absurd (i.quiet id x r);
  locked = i.locked;
}
step-Threads {w} (claim self id f n c) i = record {
  at_most_one = i.at_most_one;
  live = λ a x. rw ((claim_join_lem self id w.watcher c).3) (i.live a x);
  quiet = i.quiet;
  created_runs = λ t x y. absurd (ground (arith, f, x));
  taken_down = λ x. absurd (ground (arith, f, x));
  locked = λ x. f;
}
step-Threads {w} (join self id c e) i = record {
  at_most_one = λ a b x y. grind (arith, i.at_most_one a b);
  live = λ a x. grind (arith, i.live a);
  quiet = λ a x y. grind (arith, i.quiet a);
  created_runs = λ t x y. grind (arith, i.created_runs t);
  taken_down = i.taken_down;
  locked = i.locked;
}
