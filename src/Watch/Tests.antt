-- ===== src/Watch/Tests.antt =====
-- The watch thread (src/xal_be_fiemap_inotify.c) on concrete worlds, rounds and events.
use xal.Base.{
  ℕ, ◌≡◌, refl, ◌↔◌, ◌++◌, true, false, none, some, List, [], ◌∷◌, ok, arith, All, ◌==◌, ◌&&◌, not,
  if◌then◌else◌,
}
use xal.Sync.{dirty, indexing, is_odd, is_dirty}
use xal.Reader.{still}
use xal.Reader.Sample.{sample_seen, c_name}
use xal.Lookup.Children.Names.{first_match, first_match-Searches, next_position}
use xal.Watch.Lifecycle.{
  World, Reach, here, next, opened, initial, start_anew, create, finish_start, claim, end_thread,
  join, claim_join, make_ready, publish, is_live, set_at,
}
use xal.Watch.Lifecycle.Threads.{Threads}
use xal.Watch.Lifecycle.Invariant.{Claims, Reach-Claims}
use xal.Watch.Events.{
  Arrival, check_events, nochange, reindex, check_buffer, check_event, event_entry, entry_of,
  entry_in, search_span, missing_and_skipped, path_is_skipped,
}
use xal.Path.{inode_path, assemble, append_name, copy_name, root_slash, check_seq}
use xal.Lookup.{strip_prefix, names_at, child_index, same_name}
use xal.Lookup.Sample.{sample_spans}
use xal.Fiemap.State.{Bytes, foreign_entry, is_snapshot_name, is_some, snapshot_prefix}
use xal.Watch.Events.Dismissed.{AtRest, Dismissed, IsDry, check_events-nochange}
use xal.Watch.Loop.{timeout, Round, no_seq, go_on, callbacks_from}
use xal.Watch.Loop.Notify.{IsCalm, Unchanged, over, passes, notifies, any_dirty, callbacks_once}

-- A dirty index at version 4, where the callback's index fails and leaves the lock at 6, and the rounds
-- behind it.
abbrev dirty_round : Round
dirty_round = record {
  stop = false;
  index_state = dirty;
  seq = 4;
  last_index_err = 5;
  seq_after = 6;
  poll = timeout;
  events = ok 0;
}

abbrev later_round : Round
later_round = record dirty_round { seq = 6 }

abbrev rounds : List Round
rounds = record dirty_round { index_state = indexing } ∷ dirty_round ∷ later_round ∷ []

round-IsCalm : (v : ℕ) → IsCalm v (record dirty_round { seq = v })
round-IsCalm v = record {
  runs = refl;
  not_clean = λ e. ground arith;
  version = refl;
  polls = λ e p. ground arith;
  no_event = refl;
}

indexing-IsCalm : IsCalm 4 (record dirty_round { index_state = indexing })
indexing-IsCalm = record {
  runs = refl;
  not_clean = λ e. ground arith;
  version = refl;
  polls = λ e p. ground arith;
  no_event = refl;
}

rounds-Unchanged : Unchanged (4 == no_seq) 4 rounds
rounds-Unchanged =
    passes indexing-IsCalm refl
      (notifies (round-IsCalm 4) refl (λ e. ground (arith, e)) (passes (round-IsCalm 6) refl over))

callbacks_once_example :
    callbacks_from true rounds (go_on no_seq)
    ≡ (if true && any_dirty rounds && not (is_odd 4) && not (4 == no_seq) then 1 else 0)
callbacks_once_example = callbacks_once true 4 no_seq rounds rounds-Unchanged

-- The end of the watch on "/b", a shadow directory in it, and a symlink "s" there, which the index lacks.
abbrev arrival : ℕ → Bytes → Arrival
arrival mask name = record {
  event = record { wd = 2; mask = mask; name = name };
  indexing = false;
  trylock = true;
  view = still sample_seen;
  inode_map = λ wd. some 2;
  statx = λ path. ok (record { mount_root = false; mode = 0xa1ff; ino = 140; size = 1 });
}

abbrev arrivals : List Arrival
arrivals =
    arrival 0x8000 []
    ∷ arrival 0x100 (snapshot_prefix ++ b'1' ∷ [])
    ∷ arrival 0x100 (b's' ∷ [])
    ∷ []

arrivals-AtRest : All AtRest arrivals
arrivals-AtRest = (at_rest 0x8000 [], (at_rest 0x100 _, (at_rest 0x100 _, tt)))
  where
    at_rest : (mask : ℕ) (name : Bytes) → AtRest (arrival mask name)
    at_rest mask name = record { rest = refl; spans = sample_spans }

check_events-nochange_example :
    (check_events first_match [] 4097 (arrivals ∷ []) none ≡ ok nochange)
    ↔ (All (All (Dismissed first_match [] 4097)) (arrivals ∷ []) × IsDry first_match [] 4097 none)
check_events-nochange_example =
    check_events-nochange first_match [] 4097 first_match-Searches (arrivals ∷ []) none
      (arrivals-AtRest, tt)

-- All three are dismissed.
nothing_changed : check_events first_match [] 4097 (arrivals ∷ []) none ≡ ok nochange
unfolding check_events check_buffer check_event event_entry entry_of entry_in search_span
    missing_and_skipped path_is_skipped foreign_entry is_snapshot_name is_some strip_prefix
    inode_path assemble append_name copy_name root_slash check_seq is_dirty names_at child_index
    first_match next_position same_name
nothing_changed = refl

-- A change of the file "c" is not dismissed, nor is an event of a watch that nothing is known of.
abbrev unknown_watch : Arrival
unknown_watch = record (arrival 0x100 (b's' ∷ [])) { inode_map = λ wd. none }

asks_for_index :
    (check_events first_match [] 4097 ((arrival 0x2 c_name ∷ []) ∷ []) none ≡ ok reindex)
    × (check_events first_match [] 4097 ((unknown_watch ∷ []) ∷ []) none ≡ ok reindex)
unfolding check_events check_buffer check_event event_entry entry_of entry_in search_span
    missing_and_skipped path_is_skipped foreign_entry is_snapshot_name is_some strip_prefix
    inode_path assemble append_name copy_name root_slash check_seq is_dirty names_at child_index
    first_match next_position same_name
asks_for_index = (refl, refl)

-- A thread 7 that is started, claimed by thread 1, and ends.
abbrev prepared : World
prepared = record opened { watcher = make_ready initial; start = xal.Watch.Lifecycle.preparing }

abbrev made : World
made = record prepared {
  life = set_at prepared.life 7 xal.Watch.Lifecycle.running;
  start = xal.Watch.Lifecycle.created 7;
}

abbrev started : World
started = record made { watcher = publish (ok 7) made.watcher; start = xal.Watch.Lifecycle.free }

abbrev stopped : World
stopped = record started {
  watcher = (claim_join true 1 started.watcher).0;
  claimed = set_at started.claimed 1 (some 7);
}

stopped-Reach : Reach opened stopped
unfolding opened initial is_live claim_join publish make_ready
stopped-Reach =
    next
      (next (next (next here (start_anew refl refl refl)) (create 7 refl refl))
        (finish_start 7 refl))
      (claim 1 7 refl refl refl)

Reach-Claims_example : Threads stopped × Claims stopped
Reach-Claims_example = Reach-Claims stopped stopped-Reach
