-- ===== src/Path/Snapshot.antt =====
-- xal_inode_path() (src/xal.c) while other threads build: what it returns is a path of the index that
-- was published when it began.
use xal.Base.{
  ℕ, zero, suc, ◌+◌, ◌≤◌, ◌<◌, ◌≡◌, refl, sym, ap, ◌∙◌, List, [], ◌∷◌, Result, ok, err, arith,
  length, ltb, ◌==◌, false, u32_mod,
}
use xal.Reader.{View, node, seq_at, Pools, Seen, still, Agree}
use xal.Reader.History.{History, view_of, frozen}
use xal.Sync.Threads.{World}
use xal.Sync.{is_dirty, is_odd}
use xal.Path.{append_name, assemble, root_slash, check_seq, inode_path}

-- A call ends no earlier than it begins.
append_name-after :
    (v : View) (cap idx n : ℕ) (r : ℕ × Result (List ℕ)) → r.0 ≤ (append_name v cap idx n r).0
unfolding append_name
append_name-after v cap idx n (t, err e) = omega arith
append_name-after v cap idx n (t, ok s) = ground arith

assemble-after : (v : View) (cap f t idx : ℕ) (buf : List ℕ) → t ≤ (assemble v cap f t idx buf).0
unfolding assemble
assemble-after v cap zero t idx buf = omega arith
assemble-after v cap (suc f) t idx buf = ground (
  arith,
  assemble-after v cap f (t + 3) (node v t idx).parent_idx buf,
  append_name-after v cap idx (node v (t + 1) idx).namelen
      (assemble v cap f (t + 3) (node v t idx).parent_idx buf),
)

-- A call sees only the pools between its first access and its last.
append_name-local :
    (v w : View) (cap idx n b : ℕ) (r : ℕ × Result (List ℕ))
    → (append_name v cap idx n r).0 ≤ b
    → Agree v w r.0 b
    → append_name v cap idx n r ≡ append_name w cap idx n r
unfolding append_name
append_name-local v w cap idx n b (t, err e) h g = refl
append_name-local v w cap idx n b (t, ok s) h g = ground (arith, g t)

assemble-local :
    (v w : View) (cap f t b idx : ℕ) (buf : List ℕ)
    → (assemble v cap f t idx buf).0 ≤ b
    → Agree v w t b
    → assemble v cap f t idx buf ≡ assemble w cap f t idx buf
unfolding assemble
assemble-local v w cap zero t b idx buf h g = refl
assemble-local v w cap (suc f) t b idx buf h g = ground (
  arith,
  g t,
  g (t + 1),
  g (t + 2),
  assemble-after v cap f (t + 3) (node v t idx).parent_idx buf,
  append_name-after v cap idx (node v (t + 1) idx).namelen
      (assemble v cap f (t + 3) (node v t idx).parent_idx buf),
  assemble-local v w cap f (t + 3) b (node v t idx).parent_idx buf,
  append_name-local v w cap idx (node v (t + 1) idx).namelen b
      (assemble v cap f (t + 3) (node v t idx).parent_idx buf),
)

check_seq-inversion :
    (v : View) (exp : ℕ) (r : ℕ × Result (List ℕ)) {b : ℕ} {s : List ℕ}
    → check_seq v exp r ≡ (b, ok s)
    → (r ≡ (b, ok s)) × (seq_at v b ≡ exp)
unfolding check_seq
check_seq-inversion v exp (t, err e) h = ground arith
check_seq-inversion v exp (t, ok s) h = ground arith

root_slash-tick : (cap : ℕ) (r : ℕ × Result (List ℕ)) → (root_slash cap r).0 ≡ r.0
unfolding root_slash
root_slash-tick cap (t, err e) = refl
root_slash-tick cap (t, ok []) = ground arith
root_slash-tick cap (t, ok (c ∷ cs)) = refl

inode_path-inversion :
    (v : View) (base : List ℕ) (cap idx : ℕ) {b : ℕ} {s : List ℕ}
    → inode_path v base cap idx ≡ (b, ok s)
    → ((cap == 0) ≡ false)
      × (is_dirty (v 0).words ≡ false)
      × (is_odd (seq_at v 1) ≡ false)
      × (ltb cap (length base + 1) ≡ false)
      × (check_seq v (seq_at v 1) (root_slash cap (assemble v cap (suc idx) 2 idx base))
          ≡ (b, ok s))
unfolding inode_path
inode_path-inversion v base cap idx h = ground arith

-- The memory as a reader that began at access 0 found it.
abbrev pub found : View → Seen
found v = record {
  words = record { index_state = (v 0).words.index_state; seq_lock = seq_at v 1 };
  pools = (v 1).pools;
}

-- A path that xal_inode_path() returns while other threads mark and rebuild the index, in whatever
-- order they run, is the path that it returns with the memory at rest as the call found it: no path
-- mixes two builds. The sequence lock must not come round to the same value, by 2 ^ 32 bumps, while
-- the call runs.
pub inode_path-snapshot :
    (h : ℕ → World Pools) (base : List ℕ) (cap idx : ℕ) {b : ℕ} {s : List ℕ}
    → History h
    → inode_path (view_of h) base cap idx ≡ (b, ok s)
    → (h b).bumps < (h 1).bumps + u32_mod
    → (inode_path (still (found (view_of h))) base cap idx).1 ≡ ok s
unfolding inode_path check_seq is_dirty
inode_path-snapshot h base cap idx {b} {s} r e few =
    ground (arith, inode_path-inversion v base cap idx e, same_run, slash.0)
  where
    v : View
    v = view_of h

    run : ℕ × Result (List ℕ)
    run = assemble v cap (suc idx) 2 idx base

    slash : (root_slash cap run ≡ (b, ok s)) × (seq_at v b ≡ seq_at v 1)
    slash =
        check_seq-inversion v (seq_at v 1) (root_slash cap run)
          ((inode_path-inversion v base cap idx e).4)

    last : run.0 ≡ b
    last = sym (root_slash-tick cap run) ∙ ap (λ (q : ℕ × Result (List ℕ)). q.0) slash.0

    agree : Agree v (still (found v)) 2 b
    agree t lo hi =
        frozen h 1 b r (omega (arith, last, assemble-after v cap (suc idx) 2 idx base))
          (ground (arith, inode_path-inversion v base cap idx e)) slash.1 few t (omega arith) hi

    same_run : run ≡ assemble (still (found v)) cap (suc idx) 2 idx base
    same_run =
        assemble-local v (still (found v)) cap (suc idx) 2 b idx base (omega (arith, last)) agree
