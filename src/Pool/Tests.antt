-- ===== src/Pool/Tests.antt =====
-- The pools of src/xal_pool.c on small inputs.
use xal.Base.{
  ℕ, ◌+◌, ◌-◌, ◌≤◌, ◌≡◌, refl, true, false, List, [], ◌∷◌, none, some, ok, err, arith, u64_mod, ltb,
  if◌then◌else◌,
}
use xal.Pool.{
  Pool, Os, Mprotect, MapCalls, map_pool, unmap, claim_inodes, claim_extents, make_room, map_shm,
}
use xal.Pool.Valid.{IsValid}
use xal.Pool.Claim.{claim_refines, claim-err}
use xal.Pool.Bump
use xal.Pool.Bump.Tiles.{run, run-Tiles, Tiles, claim_wraps}
use xal.Pool.Lifetime.{IsBlank, Fits, Outcome, map_pool-Outcome, unmap-map_pool}

-- Ten elements reserved, four accessible, three handed out.
abbrev some_taken : Pool ℕ
some_taken = record {
  reserved = 10;
  allocated = 4;
  growby = 4;
  free = 3;
  element_size = 8;
  shm_name = none;
  memory = some (λ i. if ltb i 3 then i + 1 else 0);
}

abbrev grants : Mprotect
grants n = none

-- A kernel that gives at most six elements of eight bytes.
abbrev stingy : Mprotect
stingy n = if ltb 48 n then some 12 else none

some_taken-IsValid : IsValid some_taken
some_taken-IsValid = record {
  free-le = omega arith;
  allocated-le = omega arith;
  growby-le = omega arith;
  small = omega arith;
  bytes = omega arith;
  indexed = omega arith;
}

claim_refines_example :
    let (q, r) = claim_inodes grants some_taken 6 in (q.free, r) ≡ Bump.claim 10 3 6
claim_refines_example =
    claim_refines grants some_taken 6 some_taken-IsValid (omega arith) (λ n le. refl)

refused_claim : (claim_inodes stingy some_taken 6).1 ≡ err 12
unfolding claim_inodes make_room
refused_claim = refl

claim-err_example : (claim_inodes stingy some_taken 6).0 ≡ some_taken
claim-err_example = claim-err stingy some_taken 6 12 some_taken-IsValid (omega arith) refused_claim

-- Three claims, of which the second is too large and the last is refused.
abbrev three_claims : List (Mprotect × ℕ)
three_claims = (stingy, 2) ∷ (grants, 9) ∷ (stingy, 5) ∷ []

run-Tiles_example :
    Tiles 3 (run three_claims some_taken).1 (run three_claims some_taken).0.free
    × IsValid (run three_claims some_taken).0
run-Tiles_example =
    run-Tiles three_claims some_taken some_taken-IsValid
      (omega arith, (omega arith, (omega arith, tt)))

claim_wraps_example :
    (claim_inodes grants some_taken (u64_mod - 2) ≡ (record some_taken { free = 1 }, ok 3))
    × (claim_extents grants some_taken (u64_mod - 2) ≡ (record some_taken { free = 1 }, ok 3))
claim_wraps_example = claim_wraps grants some_taken 2 some_taken-IsValid (omega arith) (omega arith)

beyond_free : (i : ℕ) → 3 ≤ i → (if ltb i 3 then i + 1 else 0) ≡ 0
beyond_free i h = ground arith

abbrev blank : Pool ℕ
blank = record {
  reserved = 0;
  allocated = 0;
  growby = 0;
  free = 0;
  element_size = 0;
  shm_name = none;
  memory = none;
}

blank-IsBlank : IsBlank blank
blank-IsBlank = record {
  reserved = refl;
  allocated = refl;
  growby = refl;
  free = refl;
  element_size = refl;
  shm_name = refl;
  memory = refl;
}

ten_fit : Fits 10 8
ten_fit = record { some_reserved = omega arith; small = omega arith; bytes = omega arith }

abbrev no_maps : Os
no_maps = record { object = false; maps = 0 }

-- Every call works but the last in the way of a private pool: mprotect().
abbrev calls : Mprotect → MapCalls
calls m = record {
  strdup = none;
  shm_open = none;
  ftruncate = none;
  mmap = none;
  mprotect = m;
  munmap = none;
  shm_unlink = none;
}

map_pool-Outcome_example : Outcome 0 no_maps (map_pool 0 (calls stingy) blank 10 8 8 none no_maps)
map_pool-Outcome_example =
    map_pool-Outcome 0 (calls stingy) blank 10 8 8 none no_maps blank-IsBlank ten_fit refl refl

abbrev shared_pool : Pool ℕ
shared_pool = record {
  reserved = 10;
  allocated = 10;
  growby = 10;
  free = 0;
  element_size = 8;
  shm_name = some (b'x' ∷ []);
  memory = some (λ _. 0);
}

abbrev one_map : Os
one_map = record { object = true; maps = 1 }

maps_shared :
    map_pool 0 (calls grants) blank 10 4 8 (some (b'x' ∷ [])) no_maps
    ≡ (shared_pool, one_map, ok tt)
unfolding map_pool map_shm
maps_shared = refl

unmap-map_pool_example :
    let (r, os, ret) = unmap none none shared_pool true one_map in
    (ret ≡ ok tt) × (r.memory ≡ none) × (r.shm_name ≡ none) × (os ≡ no_maps)
unmap-map_pool_example =
    unmap-map_pool 0 (calls grants) blank 10 4 8 (some (b'x' ∷ [])) no_maps blank-IsBlank ten_fit
      refl refl refl maps_shared
