-- ===== src/Pool/Bump.antt =====
-- xal_pool_claim_inodes() and xal_pool_claim_extents() (src/xal_pool.c) against a counter: an
-- abstract allocator that only knows how many elements are reserved and how many are taken.
pub mod Tiles
use xal.Base.{ℕ, ◌+◌, Result, ok, err, enomem, eoverflow, ltb, if◌then◌else◌}
use xal.Pool.{uint32_max}

-- The next claim of `count` elements, out of `reserved`, with `free` taken: what is taken
-- afterwards, and the first of the elements handed out.
unfoldable pub claim : ℕ → ℕ → ℕ → ℕ × Result ℕ
claim reserved free count =
    if ltb reserved (free + count)
    then (free, err enomem)
    else if ltb uint32_max (free + count)
    then (free, err eoverflow)
    else (free + count, ok free)
