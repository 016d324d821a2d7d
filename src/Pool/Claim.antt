-- ===== src/Pool/Claim.antt =====
-- What one claim does, on every branch (src/xal_pool.c, xal_pool_claim_inodes() and
-- xal_pool_claim_extents()).
use xal.Base.{
  ℕ, ◌+◌, ◌≤◌, ◌<◌, ◌≡◌, refl, none, some, Result, ok, err, arith, Bool-cases, inl, inr, ◌⊎◌, add64,
  u64_mod, ltb, ltb→lt, ltb→le, le→ltb, lt→ltb, enomem, eoverflow,
}
use xal.Pool.{Pool, Mprotect, uint32_max, claim_inodes, claim_extents}
use xal.Pool.Valid.{IsValid, answer, make_room-Room}
use xal.Pool.Bump

module _ {A : Type 0} where
  -- The two claims are the same function.
  pub claim_extents-eq-claim_inodes :
      (m : Mprotect) (p : Pool A) (count : ℕ) → claim_extents m p count ≡ claim_inodes m p count
  unfolding claim_extents claim_inodes
  claim_extents-eq-claim_inodes m p count = refl

  -- A claim fails and leaves the pool alone, or hands out the elements from `free` on, of which the
  -- kernel has made all accessible.
  pub data Claimed (m : Mprotect) (p : Pool A) (count : ℕ) (r : Pool A × Result ℕ) : Type 0 where
    too_many : p.reserved < p.free + count → r ≡ (p, err enomem) → Claimed m p count r
    too_far :
        p.free + count ≤ p.reserved
        → uint32_max < p.free + count
        → r ≡ (p, err eoverflow)
        → Claimed m p count r
    refused :
        (n e : ℕ)
        → p.free + count ≤ p.reserved
        → p.free + count ≤ uint32_max
        → n ≤ p.reserved
        → answer m p n ≡ some e
        → r ≡ (p, err e)
        → Claimed m p count r
    given :
        (n : ℕ)
        → p.free + count ≤ n
        → p.free + count ≤ uint32_max
        → p.allocated ≤ n
        → n ≤ p.reserved
        → (n ≡ p.allocated) ⊎ (answer m p n ≡ none)
        → r ≡ (record p { allocated = n; free = p.free + count }, ok p.free)
        → Claimed m p count r

  pub claim_cases :
      (m : Mprotect) (p : Pool A) (count : ℕ)
      → IsValid p
      → p.free + count < u64_mod
      → Claimed m p count (claim_inodes m p count)
  unfolding claim_inodes
  claim_cases m p count v h = elim (Bool-cases (ltb p.reserved (p.free + count))) [
    | inl big ↦ too_many (ltb→lt _ _ big) (rw (no_wrap, big))
    | inr fits ↦ elim (Bool-cases (ltb uint32_max (p.free + count))) [
      | inl far ↦ too_far (ltb→le _ _ fits) (ltb→lt _ _ far) (rw (no_wrap, fits, far))
      | inr near ↦ elim (make_room-Room m p count v (ltb→le _ _ fits)) [
        | inl (n, e, up, low, room, ans) ↦
            given n room (ltb→le _ _ near) up low ans (rw (no_wrap, fits, near, e) (ground arith))
        | inr (n, x, e, low, ans) ↦
            refused n x (ltb→le _ _ fits) (ltb→le _ _ near) low ans (rw (no_wrap, fits, near, e))
      ]
    ]
  ]
    where
      no_wrap : add64 p.free count ≡ p.free + count
      no_wrap = omega arith

  -- A claim that fails leaves a valid pool as it was, where the sum of `free` and the count does not
  -- wrap.
  pub claim-err :
      (m : Mprotect) (p : Pool A) (count e : ℕ)
      → IsValid p
      → p.free + count < u64_mod
      → (claim_inodes m p count).1 ≡ err e
      → (claim_inodes m p count).0 ≡ p
  claim-err m p count e v h c = elim (claim_cases m p count v h) [
    | too_many _ r ↦ rw r
    | too_far _ _ r ↦ rw r
    | refused _ _ _ _ _ _ r ↦ rw r
    | given _ _ _ _ _ _ r ↦ cc
  ]

  pub Claimed-IsValid :
      (m : Mprotect) (p : Pool A) (count : ℕ) (r : Pool A × Result ℕ)
      → IsValid p
      → Claimed m p count r
      → IsValid r.0
  Claimed-IsValid m p count r v (too_many _ e) = rw e v
  Claimed-IsValid m p count r v (too_far _ _ e) = rw e v
  Claimed-IsValid m p count r v (refused _ _ _ _ _ _ e) = rw e v
  Claimed-IsValid m p count r v (given n room near up low ans e) = rw e (record {
    free-le = room;
    allocated-le = low;
    growby-le = v.growby-le;
    small = v.small;
    bytes = v.bytes;
    indexed = near;
  })

  -- Every claim whose count does not wrap keeps the pool valid.
  pub claim-IsValid :
      (m : Mprotect) (p : Pool A) (count : ℕ)
      → IsValid p
      → p.free + count < u64_mod
      → IsValid (claim_inodes m p count).0
  claim-IsValid m p count v h = Claimed-IsValid m p count _ v (claim_cases m p count v h)

  -- Where the kernel grants every part of the reserved range, a claim is a claim of the counter.
  pub claim_refines :
      (m : Mprotect) (p : Pool A) (count : ℕ)
      → IsValid p
      → p.free + count < u64_mod
      → ((n : ℕ) → n ≤ p.reserved → answer m p n ≡ none)
      → let (q, r) = claim_inodes m p count in (q.free, r) ≡ Bump.claim p.reserved p.free count
  unfolding Bump.claim
  claim_refines m p count v h grants = elim (claim_cases m p count v h) [
    | too_many big r ↦ rw (r, lt→ltb _ _ big)
    | too_far fits far r ↦ rw (r, le→ltb _ _ fits, lt→ltb _ _ far)
    | refused n e _ _ low a r ↦ cc (grants n low)
    | given n room near up low _ r ↦
        rw (r, le→ltb p.reserved (p.free + count) (omega arith), le→ltb _ _ near)
  ]
