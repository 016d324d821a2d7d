-- ===== src/Watch/Loop.antt =====
-- background_thread_start() (src/xal_be_fiemap_inotify.c): the loop of the watch thread.
pub mod Notify
use xal.Base.{
  ℕ, zero, suc, ◌+◌, ◌%◌, Bool, true, false, List, [], ◌∷◌, Option, none, some, Result, ok, err,
  ◌==◌, ◌&&◌, not, if◌then◌else◌,
}
use xal.Sync.{IndexState, clean, dirty, indexing, is_odd}

-- What poll() answers.
pub data Poll : Type 0 where
  timeout ready interrupted : Poll
  failed : ℕ → Poll

-- What one round of the loop reads: `stop`, the state of the index, the sequence lock; and, if it comes to
-- it, `last_index_err` and the lock behind the callback, poll() and check_events().
pub record Round : Type 0 where
  pub stop : Bool
  pub index_state : IndexState
  pub seq : ℕ
  pub last_index_err : ℕ
  pub seq_after : ℕ
  pub poll : Poll
  pub events : Result ℕ

-- `cb_seq`, an `int` whose bit pattern this is, is -1 for no version.
abbrev pub no_seq : ℕ
no_seq = 0xffff_ffff

-- What a round does: with the callback called or not, the index marked or not, and the loop left with an
-- error, left as told, or gone on with in the `cb_seq` of the next round.
pub data Next : Type 0 where
  go_on : ℕ → Next
  stopped : Next
  exits : ℕ → Next

pub record Outcome : Type 0 where
  pub fires : Bool
  pub marks : Bool
  pub next : Next

abbrev quietly : Next → Outcome
quietly n = record { fires = false; marks = false; next = n }

-- Every error of poll() and check_events() leaves the index dirty.
abbrev leave : ℕ → Outcome
leave e = record { fires = false; marks = true; next = exits e }

-- Behind check_events() for a dirty index: a change makes the callback due again.
unfoldable pub after_dirty : ℕ → Result ℕ → Outcome
after_dirty cb_seq (err e) = leave e
after_dirty cb_seq (ok r) = quietly (go_on (if r == 1 then no_seq else cb_seq))

-- Behind check_events() for a clean index: a change marks it.
unfoldable pub after_clean : Result ℕ → Outcome
after_clean (err e) = leave e
after_clean (ok r) = record { fires = false; marks = not (r == 0); next = go_on no_seq }

-- Behind poll().
unfoldable pub after_poll : Outcome → Poll → Outcome → Outcome
after_poll again timeout checked = again
after_poll again interrupted checked = again
after_poll again (failed e) checked = leave e
after_poll again ready checked = checked

-- What the body of the loop does by the state of the index. `cb` is whether a callback was given.
unfoldable pub loop_body : Bool → ℕ → Round → IndexState → Outcome
loop_body cb cb_seq r indexing = quietly (go_on cb_seq)
loop_body cb cb_seq r dirty =
    if not (is_odd r.seq) && not (r.seq == cb_seq)
    then record {
      fires = cb;
      marks = false;
      next = go_on (if r.last_index_err == 0 then r.seq else r.seq_after);
    }
    else after_poll (quietly (go_on cb_seq)) r.poll (after_dirty cb_seq r.events)
loop_body cb cb_seq r clean = after_poll (quietly (go_on no_seq)) r.poll (after_clean r.events)

-- One round of background_thread_start().
unfoldable pub round : Bool → ℕ → Round → Outcome
round cb cb_seq r = if r.stop then quietly stopped else loop_body cb cb_seq r r.index_state

-- How many callbacks a series of rounds makes, until the loop is left.
unfoldable pub callbacks_from : Bool → List Round → Next → ℕ
callbacks_from cb [] n = 0
callbacks_from cb (r ∷ rs) stopped = 0
callbacks_from cb (r ∷ rs) (exits e) = 0
callbacks_from cb (r ∷ rs) (go_on cb_seq) =
    let out = round cb cb_seq r in
    let rest = callbacks_from cb rs out.next in if out.fires then suc rest else rest
