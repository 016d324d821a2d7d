-- ===== src/Pool/Bump/Tiles.antt =====
-- What a series of claims on one pool hands out (src/xal_pool.c), and what a claim does whose count
-- wraps `size_t`.
use xal.Base.{
  ℕ, ◌+◌, ◌-◌, ◌^◌, ◌≤◌, ◌<◌, ◌≡◌, refl, List, [], ◌∷◌, Result, ok, err, arith, u64_mod, add64,
  le→ltb, All,
}
use xal.Pool.{Pool, Mprotect, claim_inodes, claim_extents, make_room, uint32_max}
use xal.Pool.Valid.{IsValid}
use xal.Pool.Claim.{Claimed, too_many, too_far, refused, given, claim_cases, Claimed-IsValid}

-- The ranges (first, count) lie end to end, from `lo` up to `hi`.
abbrev pub Tiles : ℕ → List (ℕ × ℕ) → ℕ → Type 0
Tiles lo [] hi = lo ≡ hi
Tiles lo ((i, n) ∷ rs) hi = (i ≡ lo) × Tiles (lo + n) rs hi

-- Each count of the series is below half the range of `size_t`.
abbrev pub Counts : List (Mprotect × ℕ) → Type 0
Counts = All (λ c. c.1 < 2 ^ 63)

module _ {A : Type 0} where
  granted : ℕ → Pool A × Result ℕ → List (ℕ × ℕ) → List (ℕ × ℕ)
  granted n (p, ok i) rs = (i, n) ∷ rs
  granted n (p, err e) rs = rs

  -- A series of claims, each with the kernel's answers at that time: the pool at the end, and the
  -- ranges that were handed out.
  pub run : List (Mprotect × ℕ) → Pool A → Pool A × List (ℕ × ℕ)
  unfolding granted
  run [] p = (p, [])
  run ((m, n) ∷ cs) p =
      let r = claim_inodes m p n in let rest = run cs r.0 in (rest.0, granted n r rest.1)

  -- One claim lengthens the tiling by what it hands out.
  granted-Tiles :
      (m : Mprotect) (p : Pool A) (n : ℕ) (r : Pool A × Result ℕ) (rs : List (ℕ × ℕ)) (hi : ℕ)
      → Claimed m p n r
      → Tiles r.0.free rs hi
      → Tiles p.free (granted n r rs) hi
  unfolding granted
  granted-Tiles m p n r rs hi (too_many _ e) t = rw (e, granted) (rw e at t)
  granted-Tiles m p n r rs hi (too_far _ _ e) t = rw (e, granted) (rw e at t)
  granted-Tiles m p n r rs hi (refused _ _ _ _ _ _ e) t = rw (e, granted) (rw e at t)
  granted-Tiles m p n r rs hi (given _ _ _ _ _ _ e) t = rw (e, granted) (refl, (rw e at t))

  -- Whatever the kernel answers, the claims that succeed hand out ranges that lie end to end, from
  -- the first free element to the new first free one, and the pool stays valid: no element is
  -- handed out twice, none is lost to a failed claim, and all of them are accessible.
  pub run-Tiles :
      (cs : List (Mprotect × ℕ)) (p : Pool A)
      → IsValid p
      → Counts cs
      → Tiles p.free (run cs p).1 (run cs p).0.free × IsValid (run cs p).0
  unfolding run
  run-Tiles [] p v h = (refl, v)
  run-Tiles ((m, n) ∷ cs) p v h =
      let c = claim_cases m p n v (omega (arith, v.indexed)) in
      let ih = run-Tiles cs (claim_inodes m p n).0 (Claimed-IsValid m p n _ v c) h.1 in
      (granted-Tiles m p n _ _ _ c ih.0, ih.1)

  -- A count within `free` of 2 ^ 64 wraps the sum that both limits are tested on: the claim
  -- succeeds, and the pool hands elements out again that it gave away before.
  pub claim_wraps :
      (m : Mprotect) (p : Pool A) (k : ℕ)
      → IsValid p
      → 0 < k
      → k ≤ p.free
      → (claim_inodes m p (u64_mod - k) ≡ (record p { free = p.free - k }, ok p.free))
        × (claim_extents m p (u64_mod - k) ≡ (record p { free = p.free - k }, ok p.free))
  unfolding claim_inodes claim_extents make_room
  claim_wraps m p k v pos le = (same, same)
    where
      sum : add64 p.free (u64_mod - k) ≡ p.free - k
      sum = omega (arith, v.indexed)

      same : claim_inodes m p (u64_mod - k) ≡ (record p { free = p.free - k }, ok p.free)
      same =
          rw
            (
              sum,
              le→ltb p.reserved (p.free - k) (omega (arith, v.free-le, v.allocated-le)),
              le→ltb uint32_max (p.free - k) (omega (arith, v.indexed)),
              le→ltb p.allocated (p.free - k) (omega (arith, v.free-le)),
              sum,
            )
            (ground (arith, v.indexed))
