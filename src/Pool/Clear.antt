-- ===== src/Pool/Clear.antt =====
-- xal_pool_clear() (src/xal_pool.c) as the index build uses it.
use xal.Base.{ℕ, ◌≤◌, ◌≡◌, refl, some, arith, Bool-cases, inl, inr, ltb, ltb→le}
use xal.Pool.{Pool, clear, zero_below}
use xal.Pool.Valid.{IsValid}

module _ {A : Type 0} where
  pub clear-IsValid : (z : A) (p : Pool A) → IsValid p → IsValid (clear z p)
  unfolding clear
  clear-IsValid z p v = record {
    free-le = omega arith;
    allocated-le = v.allocated-le;
    growby-le = v.growby-le;
    small = v.small;
    bytes = v.bytes;
    indexed = omega arith;
  }

  -- Where nothing at or past `free` was written, clearing leaves a valid pool with nothing handed
  -- out and every element zero; what is accessible stays so.
  pub clear_lem :
      (z : A) (p : Pool A) (m : ℕ → A)
      → IsValid p
      → p.memory ≡ some m
      → ((i : ℕ) → p.free ≤ i → m i ≡ z)
      → IsValid (clear z p)
        × ((clear z p).free ≡ 0)
        × ((clear z p).allocated ≡ p.allocated)
        × ((m' : ℕ → A) × ((clear z p).memory ≡ some m') × ((i : ℕ) → m' i ≡ z))
  unfolding clear zero_below
  clear_lem z p m v e past =
      (clear-IsValid z p v, refl, refl, (zero_below z p.free m, rw (e, clear), below))
    where
      below : (i : ℕ) → zero_below z p.free m i ≡ z
      below i = elim (Bool-cases (ltb i p.free)) [
        | inl lt ↦ rw lt
        | inr ge ↦ rw ge (past i (ltb→le _ _ ge))
      ]
