-- ===== src/Path/Bounds.antt =====
-- The path functions of src/xal.c stay within their buffer, and within their fuel, whatever a
-- concurrent build makes of the pools.
use xal.Base.{
  ℕ, zero, suc, ◌+◌, ◌≤◌, ◌<◌, ◌≡◌, refl, List, [], ◌∷◌, Result, ok, err, arith, length,
  length-append, ap,
}
use xal.Reader.{View, node, seq_at}
use xal.Path.{copy_name, append_name, assemble, root_slash, check_seq, inode_path}

pub length-copy_name : (n : ℕ) (xs : List ℕ) → length (copy_name n xs) ≡ n
unfolding copy_name
length-copy_name zero xs = refl
length-copy_name (suc n) [] = ap suc (length-copy_name n [])
length-copy_name (suc n) (x ∷ xs) = ap suc (length-copy_name n xs)

-- The string and its NUL fit in the buffer.
abbrev pub InBuffer : ℕ → ℕ × Result (List ℕ) → Type 0
InBuffer cap (t, ok s) = length s + 1 ≤ cap
InBuffer cap (t, err e) = Unit {0}

append_name-InBuffer :
    (v : View) (cap idx n : ℕ) (r : ℕ × Result (List ℕ))
    → InBuffer cap r
    → InBuffer cap (append_name v cap idx n r)
unfolding append_name
append_name-InBuffer v cap idx n (t, err e) h = tt
append_name-InBuffer v cap idx n (t, ok s) h = ground (
  arith,
  length-append s (b'/' ∷ copy_name n (node v t idx).name),
  length-copy_name n (node v t idx).name,
)

assemble-InBuffer :
    (v : View) (cap f t idx : ℕ) (buf : List ℕ)
    → length buf + 1 ≤ cap
    → InBuffer cap (assemble v cap f t idx buf)
unfolding assemble
assemble-InBuffer v cap zero t idx buf h = tt
assemble-InBuffer v cap (suc f) t idx buf h = ground (
  arith,
  append_name-InBuffer v cap idx (node v (t + 1) idx).namelen
      (assemble v cap f (t + 3) (node v t idx).parent_idx buf),
  assemble-InBuffer v cap f (t + 3) (node v t idx).parent_idx buf h,
)

root_slash-InBuffer :
    (cap : ℕ) (r : ℕ × Result (List ℕ)) → InBuffer cap r → InBuffer cap (root_slash cap r)
unfolding root_slash
root_slash-InBuffer cap (t, err e) h = tt
root_slash-InBuffer cap (t, ok []) h = ground arith
root_slash-InBuffer cap (t, ok (c ∷ cs)) h = h

check_seq-InBuffer :
    (v : View) (cap exp : ℕ) (r : ℕ × Result (List ℕ))
    → InBuffer cap r
    → InBuffer cap (check_seq v exp r)
unfolding check_seq
check_seq-InBuffer v cap exp (t, err e) h = tt
check_seq-InBuffer v cap exp (t, ok s) h = ground arith

-- No path is written past the buffer: whatever other threads make of the pools while it runs, a path
-- that xal_inode_path() returns fits in the buffer with its NUL.
pub inode_path-InBuffer :
    (v : View) (base : List ℕ) (cap idx : ℕ) → InBuffer cap (inode_path v base cap idx)
unfolding inode_path
inode_path-InBuffer v base cap idx = ground (
  arith,
  check_seq-InBuffer v cap (seq_at v 1) (root_slash cap (assemble v cap (suc idx) 2 idx base)),
  root_slash-InBuffer cap (assemble v cap (suc idx) 2 idx base),
  assemble-InBuffer v cap (suc idx) 2 idx base,
)

-- The fuel is never used up: any two amounts above the index give the same run. A call for a parent
-- is made only for a lower index.
pub assemble-fuel :
    (v : View) (cap f g t idx : ℕ) (buf : List ℕ)
    → idx < f
    → idx < g
    → assemble v cap f t idx buf ≡ assemble v cap g t idx buf
unfolding assemble
assemble-fuel v cap zero g t idx buf h k = absurd (omega arith)
assemble-fuel v cap (suc f) zero t idx buf h k = absurd (omega arith)
assemble-fuel v cap (suc f) (suc g) t idx buf h k =
    ground (arith, assemble-fuel v cap f g (t + 3) (node v t idx).parent_idx buf)
