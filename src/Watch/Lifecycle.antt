-- ===== src/Watch/Lifecycle.antt =====
-- Starting and reaping the watch thread (src/xal_be_fiemap_inotify.c): the critical sections of
-- inotify_claim_join() and xal_watch_filesystem() under the mutex `lifecycle`, and the threads that run
-- them beside the watch thread.
pub mod Threads
pub mod Invariant
use xal.Model.{Backend, xfs, fiemap, unknown, pool_idx_none}
use xal.Pool.{Sys}
use xal.Base.{
  ℕ, ◌≡◌, ◌≢◌, Bool, true, false, Option, none, some, Result, ok, err, einval, ◌==◌, if◌then◌else◌,
}

-- `struct xal_inotify`, as far as the life of the thread goes: the bits JOINABLE and EXITED of `flag`,
-- `stop`, and `watch_thread_id`.
pub record Watcher : Type 0 where
  pub joinable : Bool
  pub exited : Bool
  pub stop : Bool
  pub watch_thread_id : ℕ

abbrev pub edeadlk : ℕ
edeadlk = 35

-- `xal_be_fiemap_inotify_is_live`
unfoldable pub is_live : Watcher → Bool
is_live w = if w.exited then false else true

-- `inotify_claim_join`, called by the thread `self`: the thread to join.
unfoldable pub claim_join : Bool → ℕ → Watcher → Watcher × Result ℕ
claim_join request_stop self w =
    if w.joinable
    then (if self == w.watch_thread_id then (w, err edeadlk) else (
      record w { joinable = false; stop = if request_stop then true else w.stop },
      ok w.watch_thread_id,
    ))
    else (w, err einval)

-- `xal_be_fiemap_inotify_init`, as far as it sets these.
unfoldable pub initial : Watcher
initial = record { joinable = false; exited = true; stop = false; watch_thread_id = 0 }

-- xal_watch_filesystem() under the mutex, up to pthread_create(): nothing if a thread is live, and else
-- JOINABLE (its thread joined) and EXITED and `stop` are taken down.
unfoldable pub make_ready : Watcher → Watcher
make_ready w = record w { joinable = false; stop = false; exited = false }

-- Behind pthread_create(): with the id of the new thread, or its errno.
unfoldable pub publish : Result ℕ → Watcher → Watcher
publish (err e) w = record w { exited = true }
publish (ok id) w = record w { joinable = true; watch_thread_id = id }

-- The checks of xal_watch_filesystem() before the mutex: the backend, the watch mode, that there is an
-- index, and `last_index_err`, whose errno it gives back.
unfoldable pub check_watch : Backend → Bool → ℕ → ℕ → Result (Unit {0})
check_watch xfs watched root_idx last_err = err einval
check_watch unknown watched root_idx last_err = err einval
check_watch fiemap watched root_idx last_err =
    if watched
    then (if root_idx == pool_idx_none
        then err einval
        else if last_err == 0
        then ok tt
        else err last_err)
    else err einval

-- What pthread_join() answers.
unfoldable pub joined : Watcher × Result ℕ → Sys → Watcher × Result (Unit {0})
joined (w, err e) join = (w, err e)
joined (w, ok id) none = (w, ok tt)
joined (w, ok id) (some e) = (w, err e)

-- `xal_stop_watching_filesystem`, alone at the handle, called by `self`.
unfoldable pub stop_watching : Backend → Bool → ℕ → Sys → Watcher → Watcher × Result (Unit {0})
stop_watching xfs watched self join w = (w, err einval)
stop_watching unknown watched self join w = (w, err einval)
stop_watching fiemap watched self join w =
    if watched then joined (claim_join true self w) join else (w, err einval)

-- A thread that the system knows of: it runs, or has ended and waits for its join.
pub data Life : Type 0 where
  absent running ended : Life

-- What a start is at that holds the mutex: it has taken the flags down; it has created a thread.
pub data Start : Type 0 where
  free preparing : Start
  created : ℕ → Start

-- The flags, each thread's life, the start that holds the mutex if one does, and the thread that each
-- caller has claimed and not joined yet.
pub record World : Type 0 where
  pub watcher : Watcher
  pub life : ℕ → Life
  pub start : Start
  pub claimed : ℕ → Option ℕ

abbrev pub set_at {ℓ} : {A : Type ℓ} → (ℕ → A) → ℕ → A → ℕ → A
set_at f i a j = if j == i then a else f j

-- The steps. The mutex is held in `preparing` and `created`, so that no other section runs there; the
-- watch thread ends at any moment, raising EXITED; pthread_create() gives an id that no thread has,
-- and pthread_join() returns once the thread has ended.
pub data Step (w : World) : World → Type 0 where
  start_anew :
      w.start ≡ free
      → is_live w.watcher ≡ false
      → w.watcher.joinable ≡ false
      → Step w (record w { watcher = make_ready w.watcher; start = preparing })
  start_after_join :
      w.start ≡ free
      → is_live w.watcher ≡ false
      → w.watcher.joinable ≡ true
      → w.life w.watcher.watch_thread_id ≡ ended
      → Step w (record w {
        watcher = make_ready w.watcher;
        life = set_at w.life w.watcher.watch_thread_id absent;
        start = preparing;
      })
  create :
      (id : ℕ)
      → w.start ≡ preparing
      → w.life id ≡ absent
      → Step w (record w { life = set_at w.life id running; start = created id })
  create_fails :
      (e : ℕ)
      → w.start ≡ preparing
      → Step w (record w { watcher = publish (err e) w.watcher; start = free })
  finish_start :
      (id : ℕ)
      → w.start ≡ created id
      → Step w (record w { watcher = publish (ok id) w.watcher; start = free })
  end_thread :
      (id : ℕ)
      → w.life id ≡ running
      → Step w (record w {
        watcher = record (w.watcher) { exited = true };
        life = set_at w.life id ended;
      })
  claim :
      (self id : ℕ)
      → w.start ≡ free
      → w.claimed self ≡ none
      → (claim_join true self w.watcher).1 ≡ ok id
      → Step w (record w {
        watcher = (claim_join true self w.watcher).0;
        claimed = set_at w.claimed self (some id);
      })
  join :
      (self id : ℕ)
      → w.claimed self ≡ some id
      → w.life id ≡ ended
      → Step w (record w { life = set_at w.life id absent; claimed = set_at w.claimed self none })

pub data Reach (w : World) : World → Type 0 where
  here : Reach w w
  next : {u v : World} → Reach w u → Step u v → Reach w v

-- A handle as it was opened: no thread, and no call under way.
unfoldable pub opened : World
opened = record { watcher = initial; life = λ _. absent; start = free; claimed = λ _. none }
