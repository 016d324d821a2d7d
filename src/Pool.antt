-- ===== src/Pool.antt =====
-- src/xal_pool.c and include/xal_pool.h: a pool of fixed-size elements in one reserved range of
-- memory. The outcome of each system call is an argument: `none` for success, `some e` for -1 with
-- errno e; `mprotect` may answer by the length that it is asked for. An element is a value of any
-- type with a zero, the bytes of a fresh mapping.
pub mod Valid
pub mod Bump
pub mod Claim
pub mod Lifetime
pub mod Clear
mod Tests
use xal.Base.{
  ℕ, ◌+◌, ◌-◌, ◌%◌, Bool, true, false, Option, none, some, List, [], ◌∷◌, Result, ok, err, einval,
  enomem, eoverflow, add64, sub64, mul64, u32_mod, ltb, ◌==◌, if◌then◌else◌,
}

abbrev pub Sys : Type 0
Sys = Option ℕ

abbrev pub Mprotect : Type 0
Mprotect = ℕ → Option ℕ

-- `struct xal_pool`. `memory` is `none` for NULL; a name is its bytes.
pub record Pool (A : Type 0) : Type 0 where
  pub reserved : ℕ
  pub allocated : ℕ
  pub growby : ℕ
  pub free : ℕ
  pub element_size : ℕ
  pub shm_name : Option (List ℕ)
  pub memory : Option (ℕ → A)

-- What the process holds of the system for one pool: whether the named shared memory object
-- exists, and the number of its mappings. Descriptors are closed on every path of the function that
-- opens them, and are not counted.
pub record Os : Type 0 where
  pub object : Bool
  pub maps : ℕ

-- The outcomes of the calls that xal_pool_map() makes.
pub record MapCalls : Type 0 where
  pub strdup : Sys
  pub shm_open : Sys
  pub ftruncate : Sys
  pub mmap : Sys
  pub mprotect : Mprotect
  pub munmap : Sys
  pub shm_unlink : Sys

-- O_CREAT | O_EXCL fails on a name that exists.
abbrev pub eexist : ℕ
eexist = 17

abbrev pub uint32_max : ℕ
uint32_max = 0xffff_ffff

-- The first error is kept.
first_err : Result (Unit {0}) → Sys → Result (Unit {0})
first_err (err e) s = err e
first_err (ok _) none = ok tt
first_err (ok _) (some e) = err e

module _ {A : Type 0} where
  unmap_memory : Sys → Pool A → Os → Pool A × Os × Result (Unit {0})
  unmap_memory munmap p os = elim p.memory [
    | none ↦ (p, os, ok tt)
    | some _ ↦ elim munmap [
      | some e ↦ (p, os, err e)
      | none ↦ (record p { memory = none }, record os { maps = os.maps - 1 }, ok tt)
    ]
  ]

  drop_name : Sys → Bool → Pool A × Os × Result (Unit {0}) → Pool A × Os × Result (Unit {0})
  unfolding first_err
  drop_name shm_unlink unlink (p, os, ret) = elim p.shm_name [
    | none ↦ (p, os, ret)
    | some _ ↦ elim unlink [
      | false ↦ (record p { shm_name = none }, os, ret)
      | true ↦ (
        record p { shm_name = none },
        elim shm_unlink [ none ↦ record os { object = false } | some _ ↦ os ],
        first_err ret shm_unlink,
      )
    ]
  ]

  -- `xal_pool_unmap`
  pub unmap : Sys → Sys → Pool A → Bool → Os → Pool A × Os × Result (Unit {0})
  unfolding unmap_memory drop_name
  unmap munmap shm_unlink p unlink os = drop_name shm_unlink unlink (unmap_memory munmap p os)

  -- `xal_pool_grow`
  pub grow : Mprotect → Pool A → ℕ → Pool A × Result (Unit {0})
  grow mprotect p growby =
      elim (mprotect (add64 (mul64 growby p.element_size) (mul64 p.allocated p.element_size))) [
        | some e ↦ (p, err e)
        | none ↦ (record p { allocated = add64 p.allocated growby }, ok tt)
      ]

  -- The label `failed` of xal_pool_map().
  reset : Pool A → Pool A
  reset p = record p { reserved = 0; allocated = 0; growby = 0; free = 0; element_size = 0 }

  -- The label `failed_created`: the object goes, then the name.
  undo_created : Sys → Pool A → Os → Pool A × Os
  unfolding reset
  undo_created shm_unlink p os = (
    reset (record p { shm_name = none }),
    elim shm_unlink [ none ↦ record os { object = false } | some _ ↦ os ],
  )

  -- The branch of xal_pool_map() for a named pool, after its first assignments.
  unfoldable map_shm : A → MapCalls → Pool A → List ℕ → Os → Pool A × Os × Result (Unit {0})
  unfolding undo_created reset
  map_shm z c p name os = elim c.strdup [
    | some e ↦ (reset (record p { shm_name = none }), os, err e)
    | none ↦ elim (if os.object then some eexist else c.shm_open) [
      | some e ↦ (reset (record p { shm_name = none }), os, err e)
      | none ↦ elim c.ftruncate [
        | some e ↦
            let (q, os') = undo_created c.shm_unlink p (record os { object = true }) in
            (q, os', err e)
        | none ↦ elim c.mmap [
          | some e ↦
              let (q, os') = undo_created c.shm_unlink p (record os { object = true }) in
              (q, os', err e)
          | none ↦ (
            record p {
              shm_name = some name;
              memory = some (λ _. z);
              allocated = p.reserved;
              growby = p.reserved;
            },
            record os { object = true; maps = os.maps + 1 },
            ok tt,
          )
        ]
      ]
    ]
  ]

  finish_private : MapCalls → Os → Pool A × Result (Unit {0}) → Pool A × Os × Result (Unit {0})
  unfolding reset unmap
  finish_private c os (p, ok _) = (p, os, ok tt)
  finish_private c os (p, err e) =
      let (q, os', _) = unmap c.munmap c.shm_unlink p false os in (reset q, os', err e)

  -- The branch for private memory.
  map_private : A → MapCalls → Pool A → ℕ → Os → Pool A × Os × Result (Unit {0})
  unfolding reset
  map_private z c p allocated os =
      if ltb p.reserved allocated then (reset p, os, err einval) else elim c.mmap [
        | some e ↦
            (reset (record p { allocated = 0; growby = allocated; memory = none }), os, err e)
        | none ↦
            let fresh : Pool A = record p {
              allocated = 0;
              growby = allocated;
              memory = some (λ _. z);
            } in
            finish_private c (record os { maps = os.maps + 1 }) (grow c.mprotect fresh allocated)
      ]

  -- `xal_pool_map`
  pub map_pool :
      A → MapCalls → Pool A → ℕ → ℕ → ℕ → Option (List ℕ) → Os → Pool A × Os × Result (Unit {0})
  map_pool z c p reserved allocated element_size shm_name os =
      if p.reserved == 0
      then (let q : Pool A = record p {
        reserved = reserved;
        element_size = element_size;
        free = 0;
      } in
          elim shm_name [
            | some name ↦ map_shm z c q name os
            | none ↦ map_private z c q allocated os
          ])
      else (p, os, err einval)

  -- How many elements a claim that does not fit in the allocated ones grows the pool by.
  growth : Pool A → ℕ → ℕ
  growth p count =
      let need = sub64 (add64 p.free count) p.allocated in
      let by = if ltb p.growby need then need else p.growby in
      if ltb p.reserved (add64 p.allocated by) then sub64 p.reserved p.allocated else by

  -- The growing step that the two claims share.
  unfoldable pub make_room : Mprotect → Pool A → ℕ → Pool A × Result (Unit {0})
  unfolding growth grow
  make_room mprotect p count =
      if ltb p.allocated (add64 p.free count) then grow mprotect p (growth p count) else (p, ok tt)

  -- Hands out the index of the next free element, a `uint32_t`.
  take_free : Pool A → ℕ → Pool A × Result ℕ
  take_free p count = (record p { free = add64 p.free count }, ok (p.free % u32_mod))

  finish_claim : ℕ → Pool A × Result (Unit {0}) → Pool A × Result ℕ
  unfolding take_free
  finish_claim count (p, err e) = (p, err e)
  finish_claim count (p, ok _) = take_free p count

  -- `xal_pool_claim_inodes`
  unfoldable pub claim_inodes : Mprotect → Pool A → ℕ → Pool A × Result ℕ
  unfolding finish_claim
  claim_inodes mprotect p count =
      if ltb p.reserved (add64 p.free count)
      then (p, err enomem)
      else if ltb uint32_max (add64 p.free count)
      then (p, err eoverflow)
      else finish_claim count (make_room mprotect p count)

  -- `xal_pool_claim_extents`
  unfoldable pub claim_extents : Mprotect → Pool A → ℕ → Pool A × Result ℕ
  unfolding finish_claim
  claim_extents mprotect p count =
      if ltb p.reserved (add64 p.free count)
      then (p, err enomem)
      else if ltb uint32_max (add64 p.free count)
      then (p, err eoverflow)
      else finish_claim count (make_room mprotect p count)

  -- `memset` over the first `n` elements.
  zero_below : A → ℕ → (ℕ → A) → ℕ → A
  zero_below z n m i = if ltb i n then z else m i

  -- `xal_pool_clear`
  unfoldable pub clear : A → Pool A → Pool A
  unfolding zero_below
  clear z p = record p {
    memory = elim p.memory [ none ↦ none | some m ↦ some (zero_below z p.free m) ];
    free = 0;
  }
