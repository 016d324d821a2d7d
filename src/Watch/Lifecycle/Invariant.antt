-- ===== src/Watch/Lifecycle/Invariant.antt =====
-- Who joins which thread (src/xal_be_fiemap_inotify.c).
use xal.Base.{ℕ, ◌≡◌, refl, ◌⊎◌, inl, inr, Bool, true, false, some, arith, ◌==◌, Bool-cases}
use xal.Watch.Lifecycle.{
  Life, absent, running, ended, created, World, Step, start_anew, start_after_join, create,
  create_fails, finish_start, end_thread, claim, join, is_live, claim_join, make_ready, publish,
  initial, opened, Reach, here, next,
}
use xal.Watch.Lifecycle.Threads.{Threads, step-Threads, claim_join_lem}

-- Running, or ended and not joined.
abbrev pub is_present : Life → Bool
is_present absent = false
is_present running = true
is_present ended = true

-- Claims: each thread that is not joined yet has one owner, the flag JOINABLE, one caller that claimed
-- it, or the start that created it; and a claimed thread that still runs is told to stop.
pub record Claims (w : World) : Type 0 where
  pub ready : w.watcher.joinable ≡ true → is_present (w.life w.watcher.watch_thread_id) ≡ true
  pub held : (self t : ℕ) → w.claimed self ≡ some t → is_present (w.life t) ≡ true
  pub fresh : (t : ℕ) → w.start ≡ created t → is_present (w.life t) ≡ true
  pub own :
      (self : ℕ) → w.watcher.joinable ≡ true → w.claimed self ≡ some w.watcher.watch_thread_id → ⊥
  pub fresh_own : (self t : ℕ) → w.start ≡ created t → w.claimed self ≡ some t → ⊥
  pub once : (a b t : ℕ) → w.claimed a ≡ some t → w.claimed b ≡ some t → a ≡ b
  pub not_self : (self t : ℕ) → w.claimed self ≡ some t → (self ≡ t) → ⊥
  pub stopping : (self t : ℕ) → w.claimed self ≡ some t → w.life t ≡ running → w.watcher.stop ≡ true
  pub owned :
      (t : ℕ)
      → is_present (w.life t) ≡ true
      → ((w.watcher.joinable ≡ true) × (w.watcher.watch_thread_id ≡ t))
        ⊎ ((self : ℕ) × (w.claimed self ≡ some t))
        ⊎ (w.start ≡ created t)

step-Claims : {w v : World} → Step w v → Threads w → Claims w → Claims v
unfolding make_ready publish claim_join is_live
step-Claims {w} (start_anew f l j) h i = record {
  ready = λ x. absurd (grind arith);
  held = i.held;
  fresh = λ t x. absurd (grind arith);
  own = λ self x y. grind arith;
  fresh_own = λ self t x y. grind arith;
  once = i.once;
  not_self = i.not_self;
  stopping = λ self t x y. absurd (grind (arith, h.live t));
  owned = λ t x. elim (i.owned t x) [
    | inl (joinable, id_is) ↦ absurd (grind arith)
    | inr (inl (self, holds)) ↦ inr (inl (self, holds))
    | inr (inr makes) ↦ absurd (grind arith)
  ];
}
step-Claims {w} (start_after_join f l j d) h i = record {
  ready = λ x. absurd (grind arith);
  held = λ self t x. grind (arith, i.held self t, i.own self);
  fresh = λ t x. absurd (grind arith);
  own = λ self x y. grind arith;
  fresh_own = λ self t x y. grind arith;
  once = i.once;
  not_self = i.not_self;
  stopping = λ self t x y. absurd (grind (arith, h.live t));
  owned = λ t x. elim (i.owned t (grind arith)) [
    | inl (joinable, id_is) ↦ absurd (grind arith)
    | inr (inl (self, holds)) ↦ inr (inl (self, holds))
    | inr (inr makes) ↦ absurd (grind arith)
  ];
}
step-Claims {w} (create id p n) h i = record {
  ready = λ x. absurd (grind (arith, h.locked));
  held = λ self t x. grind (arith, i.held self t);
  fresh = λ t x. grind arith;
  own = λ self x y. grind (arith, h.locked);
  fresh_own = λ self t x y. grind (arith, i.held self t);
  once = i.once;
  not_self = i.not_self;
  stopping = λ self t x y. grind (arith, i.stopping self t, i.held self t);
  owned = λ t x. elim (Bool-cases (t == id)) [
    | inl same ↦ inr (inr (grind arith))
    | inr other ↦ elim (i.owned t (grind arith)) [
      | inl (joinable, id_is) ↦ absurd (grind (arith, h.locked))
      | inr (inl (self, holds)) ↦ inr (inl (self, holds))
      | inr (inr makes) ↦ absurd (grind arith)
    ]
  ];
}
step-Claims {w} (create_fails e p) h i = record {
  ready = i.ready;
  held = i.held;
  fresh = λ t x. grind arith;
  own = i.own;
  fresh_own = λ self t x y. grind arith;
  once = i.once;
  not_self = i.not_self;
  stopping = i.stopping;
  owned = λ t x. elim (i.owned t x) [
    | inl (joinable, id_is) ↦ inl (joinable, id_is)
    | inr (inl (self, holds)) ↦ inr (inl (self, holds))
    | inr (inr makes) ↦ absurd (grind arith)
  ];
}
step-Claims {w} (finish_start id c) h i = record {
  ready = λ x. i.fresh id c;
  held = i.held;
  fresh = λ t x. grind arith;
  own = λ self x y. i.fresh_own self id c y;
  fresh_own = λ self t x y. grind arith;
  once = i.once;
  not_self = i.not_self;
  stopping = i.stopping;
  owned = λ t x. elim (i.owned t x) [
    | inl (joinable, id_is) ↦ absurd (grind (arith, h.locked))
    | inr (inl (self, holds)) ↦ inr (inl (self, holds))
    | inr (inr makes) ↦ inl (refl, grind arith)
  ];
}
step-Claims {w} (end_thread id r) h i = record {
  ready = λ x. grind (arith, i.ready);
  held = λ self t x. grind (arith, i.held self t);
  fresh = λ t x. grind (arith, i.fresh t);
  own = i.own;
  fresh_own = i.fresh_own;
  once = i.once;
  not_self = i.not_self;
  stopping = λ self t x y. grind (arith, i.stopping self t);
  owned = λ t x. elim (i.owned t (grind arith)) [
    | inl (joinable, id_is) ↦ inl (joinable, id_is)
    | inr (inl (self, holds)) ↦ inr (inl (self, holds))
    | inr (inr makes) ↦ inr (inr makes)
  ];
}
step-Claims {w} (claim self id f n c) h i =
    let (j, named, other, left) = claim_join_lem self id w.watcher c in
    rw left (record {
      ready = λ x. absurd (grind arith);
      held = λ a t x. grind (arith, i.held a t, i.ready);
      fresh = λ t x. absurd (grind arith);
      own = λ a x y. grind arith;
      fresh_own = λ a t x y. grind arith;
      once = λ a b t x y. grind (arith, i.once a b t, i.own a, i.own b);
      not_self = λ a t x y. grind (arith, i.not_self a t);
      stopping = λ a t x y. refl;
      owned = λ t x. elim (i.owned t x) [
        | inl (joinable, id_is) ↦ inr (inl (self, grind arith))
        | inr (inl (a, holds)) ↦ inr (inl (a, grind arith))
        | inr (inr makes) ↦ absurd (grind arith)
      ];
    })
step-Claims {w} (join self id c e) h i = record {
  ready = λ x. grind (arith, i.ready, i.own self);
  held = λ a t x. grind (arith, i.held a t, i.once a self t);
  fresh = λ t x. grind (arith, i.fresh t, i.fresh_own self t);
  own = λ a x y. grind (arith, i.own a);
  fresh_own = λ a t x y. grind (arith, i.fresh_own a t);
  once = λ a b t x y. grind (arith, i.once a b t);
  not_self = λ a t x y. grind (arith, i.not_self a t);
  stopping = λ a t x y. grind (arith, i.stopping a t);
  owned = λ t x. elim (i.owned t (grind arith)) [
    | inl (joinable, id_is) ↦ inl (joinable, id_is)
    | inr (inl (a, holds)) ↦ inr (inl (a, grind arith))
    | inr (inr makes) ↦ inr (inr makes)
  ];
}

-- In every world that callers of xal_watch_filesystem() and xal_stop_watching_filesystem(), or of
-- xal_close(), reach beside the watch thread, from a handle as it was opened: at most one watch
-- thread runs, and EXITED is down while it does; each thread that has not been joined has an owner
-- that will, the flag JOINABLE with its id written, the caller that claimed it or the start that
-- created it; no thread is claimed twice, claimed while JOINABLE names it, claimed by itself or
-- joined before; and a claimed thread that still runs finds `stop` set.
pub Reach-Claims : (w : World) → Reach opened w → Threads w × Claims w
unfolding opened initial
Reach-Claims _ here = (
  record {
    at_most_one = λ a b x y. grind arith;
    live = λ a x. grind arith;
    quiet = λ a x y. grind arith;
    created_runs = λ t x y. grind arith;
    taken_down = λ x. grind arith;
    locked = λ x. grind arith;
  },
  record {
    ready = λ x. grind arith;
    held = λ self t x. grind arith;
    fresh = λ t x. grind arith;
    own = λ self x y. grind arith;
    fresh_own = λ self t x y. grind arith;
    once = λ a b t x y. grind arith;
    not_self = λ self t x y. grind arith;
    stopping = λ self t x y. grind arith;
    owned = λ t x. grind arith;
  },
)
Reach-Claims w (next {u = u} r s) =
    let (threads, claims) = Reach-Claims u r in
    (step-Threads s threads, step-Claims s threads claims)
