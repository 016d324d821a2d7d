-- ===== src/Fiemap/Open/Releases.antt =====
-- xal_be_fiemap_open() (src/xal_be_fiemap.c) hands over all that was asked for or leaves nothing behind.
use xal.Base.{
  ℕ, ◌≡◌, refl, sym, ap, ◌⊎◌, inl, inr, Bool, true, false, [], ◌∷◌, Option, none, some, Result, ok,
  err, if_elim,
}
use mathlib.Core.Path.{subst}
use xal.Pool.{Sys}
use xal.Lookup.{path_under_basepath}
use xal.Fiemap.State.{Bytes, Stat, go_on, check_root, check_subtree, strip_trailing_slashes}
use xal.Fiemap.Open.{
  WatchMode, no_watch, reflink_snapshot, unknown_mode, Opts, Owned, OpenCalls, acquire, require,
  demand, init_failed, inotify_init, keep_inotify, open_watch, is_under, subtree_on, open_subtree,
  is_not_root, name_fits, counted_root, open_map, open_path, inotify_close, fiemap_close, close,
  finish_open, nothing, open_candidate, is_known_mode, fiemap_open,
}

-- What is owned on the way: with a subtree or not, with snapshots and the watch or not, and so on.
abbrev pub owning : Bool → Bool → Bool → Bool → Bool → Owned
owning subtree snapshots inodes extents path_map = record {
  handle = true;
  mountpoint = true;
  subtree = subtree;
  reflink = snapshots;
  reflink_dir = snapshots;
  inotify = snapshots;
  lifecycle = snapshots;
  index_lock = snapshots;
  fd = snapshots;
  wd_map = snapshots;
  inodes = inodes;
  extents = extents;
  path_map = path_map;
  fault = false;
}

-- A step that succeeds with exactly `to`, or fails with what xal_close() releases to the last.
abbrev Gives : Owned → Owned × Result (Unit {0}) → Type 0
Gives to r = (r ≡ (to, ok tt)) ⊎ ((o : Owned) × (e : ℕ) × (r ≡ (o, err e)) × (close o ≡ nothing))

close-owning : (s w i e p : Bool) → close (owning s w i e p) ≡ nothing
unfolding close fiemap_close inotify_close
close-owning s true i e p = refl
close-owning s false i e p = refl

go_on-Gives :
    (mid to : Owned) (r : Owned × Result (Unit {0})) (next : Owned → Owned × Result (Unit {0}))
    → Gives mid r
    → Gives to (next mid)
    → Gives to (go_on r next)
unfolding go_on
go_on-Gives mid to r next (inl done) g =
    subst (λ (x : Owned × Result (Unit {0})). Gives to (go_on x next)) (sym done) g
go_on-Gives mid to r next (inr (o, e, failed, l)) g = inr (
  o,
  e,
  subst (λ (x : Owned × Result (Unit {0})). go_on x next ≡ (o, err e)) (sym failed) refl,
  l,
)

acquire-Gives :
    (s : Sys) (take : Owned → Owned) (o : Owned)
    → close o ≡ nothing
    → Gives (take o) (acquire s take o)
unfolding acquire
acquire-Gives none take o c = inl refl
acquire-Gives (some e) take o c = inr (o, e, refl, c)

require-Gives : {A : Type 0} (r : Result A) (o : Owned) → close o ≡ nothing → Gives o (require r o)
unfolding require
require-Gives (ok a) o c = inl refl
require-Gives (err e) o c = inr (o, e, refl, c)

demand-Gives : (b : Bool) (o : Owned) → close o ≡ nothing → Gives o (demand b o)
demand-Gives true o c = inl refl
demand-Gives false o c = inr (o, 22, refl, c)

unfoldable pub has_subtree : Bytes → Bool
has_subtree [] = false
has_subtree (c ∷ cs) = true

subtree_on-Gives :
    (c : OpenCalls) (m s : Bytes) (r : Result Stat) (o : Owned)
    → close o ≡ nothing
    → Gives o (subtree_on c m s r o)
unfolding subtree_on
subtree_on-Gives c m s (err e) o h = inr (o, e, refl, h)
subtree_on-Gives c m s (ok sb) o h =
    go_on-Gives o o _ _ (demand-Gives (is_under (path_under_basepath s m)) o h)
      (require-Gives (check_subtree (c.lstat s) sb) o h)

open_subtree-Gives :
    (c : OpenCalls) (m s : Bytes)
    → Gives
        (owning (has_subtree s) false false false false)
        (open_subtree c m s (owning false false false false false))
unfolding open_subtree has_subtree
open_subtree-Gives c m [] = inl refl
open_subtree-Gives c m (d ∷ s) =
    go_on-Gives (owning true false false false false) (owning true false false false false) _ _
      (acquire-Gives c.strdup (λ p. record p { subtree = true }) _
        (close-owning false false false false false))
      (subtree_on-Gives c m _ _ _ (close-owning true false false false false))

unfoldable pub takes_snapshots : WatchMode → Bool
takes_snapshots no_watch = false
takes_snapshots unknown_mode = false
takes_snapshots reflink_snapshot = true

-- With snapshots, before their directory and the watch are set up.
abbrev with_reflink : Bool → Bool → Bool → Owned
with_reflink s dir inotify = record (owning s false false false false) {
  reflink = true;
  reflink_dir = dir;
  inotify = inotify;
}

inotify_init-Gives :
    (a b c d : Sys) (s : Bool)
    → Gives
        (owning s true false false false)
        (keep_inotify (inotify_init a b c d (with_reflink s true true)))
unfolding keep_inotify inotify_init init_failed close fiemap_close inotify_close
inotify_init-Gives (some e) b c d s = inr (_, e, refl, refl)
inotify_init-Gives none (some e) c d s = inr (_, e, refl, refl)
inotify_init-Gives none none (some e) d s = inr (_, e, refl, refl)
inotify_init-Gives none none none (some e) s = inr (_, 22, refl, refl)
inotify_init-Gives none none none none s = inl refl

open_watch-Gives :
    (c : OpenCalls) (mode : WatchMode) (s : Bool)
    → Gives
        (owning s (takes_snapshots mode) false false false)
        (open_watch c mode (owning s false false false false))
unfolding open_watch takes_snapshots close fiemap_close inotify_close
open_watch-Gives c no_watch s = inl refl
open_watch-Gives c unknown_mode s = inr (_, 22, refl, refl)
open_watch-Gives c reflink_snapshot s =
    go_on-Gives (with_reflink s true true) (owning s true false false false) _ _
      (go_on-Gives (with_reflink s true false) (with_reflink s true true) _ _
        (go_on-Gives (with_reflink s false false) (with_reflink s true false) _ _
          (acquire-Gives c.calloc_reflink _ _ refl) (acquire-Gives c.malloc_dir _ _ refl))
        (acquire-Gives c.calloc_inotify _ _ refl))
      (inotify_init-Gives c.init_lifecycle c.init_index_lock c.inotify_init1 c.kh_init_watches s)

open_map-Gives :
    (kh_init : Sys) (hashmap s w : Bool)
    → Gives (owning s w true true hashmap) (open_map kh_init hashmap (owning s w true true false))
unfolding open_map
open_map-Gives kh_init false s w = inl refl
open_map-Gives (some e) true s w = inr (_, 22, refl, close-owning s w true true false)
open_map-Gives none true s w = inl refl

-- What a handle owns that was opened with some options.
abbrev pub asked : Opts → Owned
asked opts =
    owning (has_subtree opts.subtree) (takes_snapshots opts.watch_mode) true true opts.hashmap

open_path-Gives :
    (c : OpenCalls) (opts : Opts) (m : Bytes)
    → Gives (asked opts) (open_path c opts m (owning false false false false false))
unfolding open_path
open_path-Gives c opts m =
    let s = has_subtree opts.subtree in
    let w = takes_snapshots opts.watch_mode in
    let none_yet = owning false false false false false in
    let watched = owning s w false false false in
    let released = close-owning s w false false false in
    go_on-Gives (owning s w true true false) (asked opts) _ _
      (go_on-Gives watched (owning s w true true false) _ _
        (go_on-Gives watched watched _ _
          (go_on-Gives watched watched _ _
            (go_on-Gives watched watched _ _
              (go_on-Gives (owning s false false false false) watched _ _
                (go_on-Gives none_yet (owning s false false false false) _ _
                  (go_on-Gives none_yet none_yet _ _
                    (require-Gives (check_root (c.lstat m)) none_yet
                      (close-owning false false false false false))
                    (demand-Gives (is_not_root (check_root (c.lstat m)) c.stat_root) none_yet
                      (close-owning false false false false false)))
                  (open_subtree-Gives c m opts.subtree))
                (open_watch-Gives c opts.watch_mode s))
              (require-Gives (c.total_entries (counted_root m opts.subtree)) watched released))
            (acquire-Gives c.statfs (λ p. p) watched released))
          (demand-Gives (name_fits opts.shm_name) watched released))
        (go_on-Gives (owning s w true false false) (owning s w true true false) _ _
          (acquire-Gives c.map_inodes (λ q. record q { inodes = true }) watched released)
          (acquire-Gives c.map_extents (λ q. record q { extents = true })
            (owning s w true false false) (close-owning s w true false false))))
      (open_map-Gives c.kh_init opts.hashmap s w)

-- All that was asked for, or an errno and nothing.
abbrev pub Settled : Opts → Owned × Result (Unit {0}) → Type 0
Settled opts r = (r ≡ (asked opts, ok tt)) ⊎ ((e : ℕ) × (r ≡ (nothing, err e)))

finish-Settled :
    (opts : Opts) (r : Owned × Result (Unit {0}))
    → Gives (asked opts) r
    → Settled opts (finish_open r)
unfolding finish_open
finish-Settled opts r (inl done) =
    inl (
      subst (λ (x : Owned × Result (Unit {0})). finish_open x ≡ (asked opts, ok tt)) (sym done)
        refl)
finish-Settled opts r (inr (o, e, failed, released)) = inr (
  e,
  subst (λ (x : Owned × Result (Unit {0})). finish_open x ≡ (nothing, err e)) (sym failed)
      (ap (λ (x : Owned). (x, err e)) released),
)

candidate-Settled :
    (c : OpenCalls) (opts : Opts) (m : Bytes) (calloc : Sys)
    → Settled opts (open_candidate c opts m calloc)
unfolding open_candidate close fiemap_close inotify_close
candidate-Settled c opts m (some e) = inr (e, refl)
candidate-Settled c opts m none = finish-Settled opts _ (
    go_on-Gives (owning false false false false false) (asked opts) _ _
      (acquire-Gives c.calloc_mountpoint _ _ refl)
      (open_path-Gives c opts (strip_trailing_slashes m)))

-- Whatever each of its calls answers, xal_be_fiemap_open() gives a handle that owns exactly what the options
-- ask for, or returns an errno with everything released, mutexes, descriptor, pools and maps, and no
-- part of the watch released that was not held; the second for a mode that it does not know.
pub fiemap_open-Settled :
    (c : OpenCalls) (opts : Opts) (m : Option Bytes) → Settled opts (fiemap_open c opts m)
unfolding fiemap_open
fiemap_open-Settled c opts none = inr (22, refl)
fiemap_open-Settled c opts (some m) =
    if_elim (Settled opts) (is_known_mode opts.watch_mode)
      (λ _. candidate-Settled c opts m c.calloc) (λ _. inr (22, refl))
