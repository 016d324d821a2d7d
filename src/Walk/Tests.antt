-- ===== src/Walk/Tests.antt =====
-- xal_walk() of src/xal.c on a small index.
use xal.Base.{ℕ, zero, suc, ◌+◌, ◌≤◌, ◌<◌, ◌≡◌, refl, [], ◌∷◌, ok, arith, inl, inr, false}
use xal.Sync.{is_dirty}
use xal.Reader.{still}
use xal.Reader.Sample.{sample_seen, sample_pools}
use xal.Walk.{xal_walk}
use xal.Walk.Order.{IsTree, preorder, note, xal_walk-preorder}

-- The whole index, parents first.
sample_preorder : preorder sample_pools 3 0 0 ≡ (0, 0) ∷ (1, 1) ∷ (2, 1) ∷ (3, 2) ∷ []
sample_preorder = refl

-- The directory "b" with the file "c".
b-IsTree : IsTree sample_pools 2 2
b-IsTree = inr (refl, omega arith, omega arith, omega arith, of_b)
  where
    of_b : (j : ℕ) → 3 ≤ j → j < 3 + 1 → IsTree sample_pools 1 j
    of_b zero lo hi = absurd (omega arith)
    of_b (suc zero) lo hi = absurd (omega arith)
    of_b (suc (suc zero)) lo hi = absurd (omega arith)
    of_b (suc (suc (suc zero))) lo hi = inl (refl, refl)
    of_b (suc (suc (suc (suc j)))) lo hi = absurd (omega arith)

sample_is_clean : is_dirty sample_seen.words ≡ false
unfolding is_dirty
sample_is_clean = refl

xal_walk-preorder_example :
    let (t, seen, r) = xal_walk (still sample_seen) note 2 2 [] in
    (seen ≡ preorder sample_pools 2 0 2) × (r ≡ ok tt)
xal_walk-preorder_example =
    xal_walk-preorder sample_seen 2 2 2 sample_is_clean refl b-IsTree (omega arith)
