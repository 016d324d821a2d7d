-- ===== src/Pool/Valid.antt =====
-- The invariant of a mapped pool (src/xal_pool.c), and that its operations keep it.
use native.Mathlib.Nat.{mod-eq_of_lt, mul-le-mul_right}
use xal.Base.{
  ℕ, ◌+◌, ◌*◌, ◌^◌, ◌≤◌, ◌<◌, ◌≡◌, refl, Option, none, some, Result, ok, err, arith, Bool-cases,
  inl, inr, ◌⊎◌, add64, mul64, u64_mod, Option-cases, ltb, ltb→lt, ltb→le,
}
use xal.Pool.{Pool, Mprotect, uint32_max, grow, growth, make_room}

module _ {A : Type 0} where
  -- Indices handed out are readable, what is readable is reserved, and no byte count wraps.
  pub record IsValid (p : Pool A) : Type 0 where
    pub free-le : p.free ≤ p.allocated
    pub allocated-le : p.allocated ≤ p.reserved
    pub growby-le : p.growby ≤ p.reserved
    pub small : p.reserved ≤ 2 ^ 63
    pub bytes : p.reserved * p.element_size < u64_mod
    pub indexed : p.free ≤ uint32_max

  growth_fits :
      (p : Pool A) (count : ℕ)
      → IsValid p
      → p.free + count ≤ p.reserved
      → p.allocated < p.free + count
      → (p.free + count ≤ p.allocated + growth p count)
        × (p.allocated + growth p count ≤ p.reserved)
  unfolding growth
  growth_fits p count v h k = ground arith

  -- The kernel's answer to a request for the bytes of the first `n` elements.
  abbrev pub answer : Mprotect → Pool A → ℕ → Option ℕ
  answer m p n = m (n * p.element_size)

  grow_bytes :
      (p : Pool A) (n : ℕ)
      → IsValid p
      → p.allocated + n ≤ p.reserved
      → add64 (mul64 n p.element_size) (mul64 p.allocated p.element_size)
        ≡ (p.allocated + n) * p.element_size
  grow_bytes p n v h = rw (mod-eq_of_lt a, mod-eq_of_lt b, mod-eq_of_lt c) (omega arith)
    where
      open v use {bytes}

      whole : (p.allocated + n) * p.element_size ≤ p.reserved * p.element_size
      whole = mul-le-mul_right p.element_size h

      a : n * p.element_size < u64_mod
      a = omega (arith, whole)

      b : p.allocated * p.element_size < u64_mod
      b = omega (arith, whole)

      c : n * p.element_size + p.allocated * p.element_size < u64_mod
      c = omega (arith, whole)

  -- What growing by `n` elements within the reserved range does: the kernel is asked for exactly the
  -- bytes of the grown range, and only `allocated` changes.
  pub grow_lem :
      (m : Mprotect) (p : Pool A) (n : ℕ)
      → IsValid p
      → p.allocated + n ≤ p.reserved
      → ((answer m p (p.allocated + n) ≡ none)
          × (grow m p n ≡ (record p { allocated = p.allocated + n }, ok tt)))
        ⊎ ((e : ℕ) × (answer m p (p.allocated + n) ≡ some e) × (grow m p n ≡ (p, err e)))
  unfolding grow
  grow_lem m p n v h = elim (Option-cases (answer m p (p.allocated + n))) [
    | inl e ↦ inl (e, rw (grow_bytes p n v h, e, grow) (ground (arith, sum)))
    | inr (x, e) ↦ inr (x, e, rw (grow_bytes p n v h, e, grow))
  ]
    where
      sum : add64 p.allocated n ≡ p.allocated + n
      sum = omega (arith, v.small)

  -- Room for `count` more elements: the pool has it, or the kernel grants it, or nothing changes.
  abbrev pub Room : Mprotect → Pool A → ℕ → Pool A × Result (Unit {0}) → Type 0
  Room m p count r =
      ((n : ℕ) × (r ≡ (record p { allocated = n }, ok tt))
        × (p.allocated ≤ n)
        × (n ≤ p.reserved)
        × (p.free + count ≤ n)
        × ((n ≡ p.allocated) ⊎ (answer m p n ≡ none)))
      ⊎ ((n e : ℕ) × (r ≡ (p, err e)) × (n ≤ p.reserved) × (answer m p n ≡ some e))

  grown-Room :
      (m : Mprotect) (p : Pool A) (count : ℕ)
      → IsValid p
      → p.free + count ≤ p.reserved
      → p.allocated < p.free + count
      → Room m p count (grow m p (growth p count))
  grown-Room m p count v h need =
      let fit = growth_fits p count v h need in
      elim (grow_lem m p (growth p count) v fit.1) [
        | inl (a, e) ↦ inl (p.allocated + growth p count, e, omega arith, fit.1, fit.0, inr a)
        | inr (x, a, e) ↦ inr (p.allocated + growth p count, x, e, fit.1, a)
      ]

  pub make_room-Room :
      (m : Mprotect) (p : Pool A) (count : ℕ)
      → IsValid p
      → p.free + count ≤ p.reserved
      → Room m p count (make_room m p count)
  unfolding make_room
  make_room-Room m p count v h = elim (Bool-cases (ltb p.allocated (add64 p.free count))) [
    | inr fits ↦ rw fits (
        inl (
          p.allocated,
          refl,
          omega arith,
          v.allocated-le,
          omega (arith, v.small, ltb→le _ _ fits),
          inl refl,
        ))
    | inl short ↦ rw short (grown-Room m p count v h (omega (arith, v.small, ltb→lt _ _ short)))
  ]
