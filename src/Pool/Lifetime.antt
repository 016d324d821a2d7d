-- ===== src/Pool/Lifetime.antt =====
-- xal_pool_map() and xal_pool_unmap() (src/xal_pool.c): what they leave behind.
use xal.Base.{
  ℕ, ◌+◌, ◌*◌, ◌^◌, ◌≤◌, ◌<◌, ◌≡◌, ◌≢◌, refl, true, false, List, Option, none, some, Result, ok,
  err, arith, Bool-cases, inl, inr, ◌⊎◌, ltb, ltb→le, u64_mod, einval,
}
use xal.Pool.{
  Pool, Os, MapCalls, Mprotect, map_pool, map_shm, map_private, grow, unmap, finish_private,
}
use xal.Pool.Valid.{IsValid, grow_lem}

-- A request that a pool can serve.
pub record Fits (reserved element_size : ℕ) : Type 0 where
  pub some_reserved : 0 < reserved
  pub small : reserved ≤ 2 ^ 63
  pub bytes : reserved * element_size < u64_mod

module _ {A : Type 0} where
  -- A pool as calloc() leaves it, or as a failed xal_pool_map() does.
  pub record IsBlank (p : Pool A) : Type 0 where
    pub reserved : p.reserved ≡ 0
    pub allocated : p.allocated ≡ 0
    pub growby : p.growby ≡ 0
    pub free : p.free ≡ 0
    pub element_size : p.element_size ≡ 0
    pub shm_name : p.shm_name ≡ none
    pub memory : p.memory ≡ none

  -- A call that succeeds leaves a valid, empty and zeroed pool in one mapping more; a call that
  -- fails leaves a blank pool, no mapping more, and the named object as it found it.
  abbrev pub Outcome : A → Os → Pool A × Os × Result (Unit {0}) → Type 0
  Outcome z os (q, os', ok _) =
      IsValid q
      × (q.free ≡ 0)
      × (q.memory ≡ some (λ _. z))
      × (os'.maps ≡ os.maps + 1)
      × (os'.object ≡ (elim q.shm_name [ none ↦ os.object | some _ ↦ true ]))
  Outcome z os (q, os', err _) = IsBlank q × (os' ≡ os)

  map_shm-Outcome :
      (z : A) (c : MapCalls) (p : Pool A) (name : List ℕ) (os : Os)
      → Fits p.reserved p.element_size
      → p.free ≡ 0
      → p.memory ≡ none
      → p.shm_name ≡ none
      → c.shm_unlink ≡ none
      → Outcome z os (map_shm z c p name os)
  unfolding map_shm
  map_shm-Outcome z c p name os f hf hm hn hu = ground arith

  grown-IsValid :
      (m : Mprotect) (p : Pool A) (n : ℕ)
      → Fits p.reserved p.element_size
      → p.free ≡ 0
      → p.allocated ≡ 0
      → p.growby ≡ n
      → n ≤ p.reserved
      → ((grow m p n ≡ (record p { allocated = n }, ok tt)) × IsValid (record p { allocated = n }))
        ⊎ ((e : ℕ) × (grow m p n ≡ (p, err e)))
  grown-IsValid m p n f hf ha hg le = elim (grow_lem m p n empty (omega arith)) [
    | inl (_, e) ↦ inl (rw e (ground arith), full)
    | inr (x, _, e) ↦ inr (x, e)
  ]
    where
      empty : IsValid p
      empty = omega (arith, f.small, f.bytes)

      full : IsValid (record p { allocated = n })
      full = omega (arith, f.small, f.bytes)

  map_private-Outcome :
      (z : A) (c : MapCalls) (p : Pool A) (allocated : ℕ) (os : Os)
      → Fits p.reserved p.element_size
      → p.free ≡ 0
      → p.memory ≡ none
      → p.shm_name ≡ none
      → c.munmap ≡ none
      → Outcome z os (map_private z c p allocated os)
  unfolding map_private finish_private
  map_private-Outcome z c p allocated os f hf hm hn hu =
      elim (Bool-cases (ltb p.reserved allocated)) [
        | inl big ↦ rw big (ground arith)
        | inr fits ↦
            rw fits (
              ground (arith, grown-IsValid c.mprotect fresh allocated, ltb→le p.reserved allocated))
      ]
    where
      fresh : Pool A
      fresh = record p { allocated = 0; growby = allocated; memory = some (λ _. z) }

  -- Whatever the system calls answer, xal_pool_map() on a blank pool either hands over a valid,
  -- empty, zeroed pool, or leaves the pool blank and the system as it was: no mapping and no name
  -- stays behind. Undoing needs that munmap() and shm_unlink() work.
  pub map_pool-Outcome :
      (z : A) (c : MapCalls) (p : Pool A) (reserved allocated element_size : ℕ)
      (name : Option (List ℕ)) (os : Os)
      → IsBlank p
      → Fits reserved element_size
      → c.munmap ≡ none
      → c.shm_unlink ≡ none
      → Outcome z os (map_pool z c p reserved allocated element_size name os)
  unfolding map_pool
  map_pool-Outcome z c p reserved allocated element_size none os b f hm hu = rw b.reserved (
      map_private-Outcome z c
        (record p { reserved = reserved; element_size = element_size; free = 0 }) allocated os f
        refl b.memory b.shm_name hm)
  map_pool-Outcome z c p reserved allocated element_size (some name) os b f hm hu = rw b.reserved (
      map_shm-Outcome z c (record p { reserved = reserved; element_size = element_size; free = 0 })
        name os f refl b.memory b.shm_name hu)

  -- A pool in use is refused, and nothing changes.
  pub map_pool-busy :
      (z : A) (c : MapCalls) (p : Pool A) (reserved allocated element_size : ℕ)
      (name : Option (List ℕ)) (os : Os)
      → p.reserved ≢ 0
      → map_pool z c p reserved allocated element_size name os ≡ (p, os, err einval)
  unfolding map_pool
  map_pool-busy z c p reserved allocated element_size name os h = ground arith

  -- Unmapping with `unlink` what was just mapped gives everything back: no memory, no name, no
  -- mapping more than before, and no object of the name.
  pub unmap-map_pool :
      (z : A) (c : MapCalls) (p : Pool A) (reserved allocated element_size : ℕ)
      (name : Option (List ℕ)) (os : Os) {q : Pool A} {os' : Os}
      → IsBlank p
      → Fits reserved element_size
      → c.munmap ≡ none
      → c.shm_unlink ≡ none
      → os.object ≡ false
      → map_pool z c p reserved allocated element_size name os ≡ (q, os', ok tt)
      → let (r, os'', ret) = unmap none none q true os' in
        (ret ≡ ok tt) × (r.memory ≡ none) × (r.shm_name ≡ none) × (os'' ≡ os)
  unfolding unmap
  unmap-map_pool z c p reserved allocated element_size name os {q} {os'} b f hm hu ho e =
      ground
        (arith, rw e at (map_pool-Outcome z c p reserved allocated element_size name os b f hm hu))
