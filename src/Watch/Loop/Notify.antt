-- ===== src/Watch/Loop/Notify.antt =====
-- When the watch thread calls back (src/xal_be_fiemap_inotify.c).
use xal.Base.{
  ℕ, ◌≡◌, refl, ap, ◌∙◌, Bool, true, false, List, [], ◌∷◌, ok, arith, ◌==◌, ◌&&◌, ◌||◌, not,
  if◌then◌else◌, sym, Bool-cases, inl, inr,
}
use mathlib.Core.Path.{subst}
use xal.Sync.{IndexState, clean, dirty, indexing, is_odd}
use xal.Watch.Loop.{
  Poll, timeout, ready, interrupted, failed, Round, go_on, stopped, Outcome, after_dirty,
  after_poll, loop_body, round, callbacks_from,
}

-- A round of version `v` in which the thread learns of no change: the index is not clean, nothing stops or
-- fails, and no event asks for a new index.
pub record IsCalm (v : ℕ) (r : Round) : Type 0 where
  pub runs : r.stop ≡ false
  pub not_clean : (r.index_state ≡ clean) → ⊥
  pub version : r.seq ≡ v
  pub polls : (e : ℕ) → (r.poll ≡ failed e) → ⊥
  pub no_event : r.events ≡ ok 0

abbrev pub is_dirty_round : Round → Bool
is_dirty_round r = elim r.index_state [ clean ↦ false | dirty ↦ true | indexing ↦ false ]

-- Whether it is time to call back: the index is dirty at an even version, and the user was not told of it.
abbrev pub is_due : Bool → ℕ → Round → Bool
is_due told v r = is_dirty_round r && not (is_odd v) && not told

-- Rounds in which nothing changes, from version `v` on, of which the user was told or not. Only what the
-- user does when called may move the sequence lock, by an index that fails: that is not a new version,
-- and the user was told.
pub data Unchanged : Bool → ℕ → List Round → Type 0 where
  over : {told : Bool} {v : ℕ} → Unchanged told v []
  passes :
      {told : Bool} {v : ℕ} {r : Round} {rs : List Round}
      → IsCalm v r
      → is_due told v r ≡ false
      → Unchanged told v rs
      → Unchanged told v (r ∷ rs)
  notifies :
      {told : Bool} {v : ℕ} {r : Round} {rs : List Round}
      → IsCalm v r
      → is_due told v r ≡ true
      → (r.last_index_err ≡ 0 → r.seq_after ≡ v)
      → Unchanged true r.seq_after rs
      → Unchanged told v (r ∷ rs)

-- Whether some round finds the index dirty.
pub any_dirty : List Round → Bool
any_dirty [] = false
any_dirty (r ∷ rs) = is_dirty_round r || any_dirty rs

poll_lem : (p : Poll) (out : Outcome) → ((e : ℕ) → (p ≡ failed e) → ⊥) → after_poll out p out ≡ out
unfolding after_poll
poll_lem timeout out f = refl
poll_lem ready out f = refl
poll_lem interrupted out f = refl
poll_lem (failed e) out f = absurd (f e refl)

abbrev quiet : ℕ → Outcome
quiet cb_seq = record { fires = false; marks = false; next = go_on cb_seq }

-- The `cb_seq` behind a callback.
abbrev latched : ℕ → Round → ℕ
latched v r = if r.last_index_err == 0 then v else r.seq_after

body_lem :
    (cb : Bool) (v cb_seq : ℕ) (r : Round) (state : IndexState)
    → IsCalm v r
    → ((state ≡ clean) → ⊥)
    → let due =
        (elim state [ clean ↦ false | dirty ↦ true | indexing ↦ false ])
        && not (is_odd v)
        && not (v == cb_seq) in
      loop_body cb cb_seq r state ≡ record {
        fires = due && cb;
        marks = false;
        next = go_on (if due then latched v r else cb_seq);
      }
unfolding loop_body after_dirty
body_lem cb v cb_seq r clean u n = absurd (n refl)
body_lem cb v cb_seq r indexing u n = refl
body_lem cb v cb_seq r dirty u n =
    let calm : after_poll (quiet cb_seq) r.poll (after_dirty cb_seq r.events) ≡ quiet cb_seq =
      ap (λ x. after_poll (quiet cb_seq) r.poll (after_dirty cb_seq x)) u.no_event
      ∙ poll_lem r.poll (quiet cb_seq) u.polls in
    ground (arith, u.version, calm)

round_lem :
    (cb : Bool) (v cb_seq : ℕ) (r : Round)
    → IsCalm v r
    → let due = is_due (v == cb_seq) v r in
      round cb cb_seq r ≡ record {
        fires = due && cb;
        marks = false;
        next = go_on (if due then latched v r else cb_seq);
      }
unfolding round
round_lem cb v cb_seq r u =
    ap
      (λ b.
        if b
        then record { fires = false; marks = false; next = stopped }
        else loop_body cb cb_seq r r.index_state)
      u.runs
    ∙ body_lem cb v cb_seq r r.index_state u u.not_clean

-- What the thread has latched is the version that the user was told of.
latched_lem :
    (v : ℕ) (r : Round) → (r.last_index_err ≡ 0 → r.seq_after ≡ v) → latched v r ≡ r.seq_after
latched_lem v r h = elim (Bool-cases (r.last_index_err == 0)) [
  | inl z ↦ rw z (sym (h (ground (arith, z))))
  | inr n ↦ rw n refl
]

same_version : (v : ℕ) → (v == v) ≡ true
same_version v = ground arith

-- Over rounds in which the tree stays at one version, the lock being moved at most by an index that the
-- callback makes and that fails, and in which the index is not clean, nothing stops or fails and no
-- event asks for a new index, the callback is called once if there is one, a round finds the index
-- dirty, the version is even and it was not called at it before, and else never.
pub callbacks_once :
    (cb : Bool) (v cb_seq : ℕ) (rs : List Round)
    → Unchanged (v == cb_seq) v rs
    → callbacks_from cb rs (go_on cb_seq)
      ≡ (if cb && any_dirty rs && not (is_odd v) && not (v == cb_seq) then 1 else 0)
unfolding callbacks_from any_dirty
callbacks_once cb v cb_seq [] over = ground arith
callbacks_once cb v cb_seq (r ∷ rs) (passes calm late u) =
    rw (round_lem cb v cb_seq r calm, late, callbacks_once cb v cb_seq rs u) (ground (arith, late))
callbacks_once cb v cb_seq (r ∷ rs) (notifies calm due moved u) =
    let told : (r.seq_after == latched v r) ≡ true =
      rw (latched_lem v r moved) (same_version r.seq_after) in
    let rest =
      callbacks_once cb r.seq_after (latched v r) rs
        (subst (λ b. Unchanged b r.seq_after rs) (sym told) u) in
    rw (round_lem cb v cb_seq r calm, due, rest) (ground (arith, due, told))
