-- ===== src/Fiemap/Mapping.antt =====
-- fiemap_ioctl(), read_fiemap() and fiemap_extent_flag() (src/xal_be_fiemap.c): the extents of a file.
pub mod Complete
use xal.Base.{
  ℕ, zero, suc, ◌+◌, ◌-◌, ◌/◌, ◌%◌, ◌^◌, Bool, true, false, Option, none, some, Result, ok, err,
  eagain, ltb, ◌==◌, ◌||◌, if◌then◌else◌,
}
use xal.Pool.{Sys}
use xal.Fiemap.State.{FiemapExtent, Fiemap, FiemapIoctl}

-- XAL_FIEMAP_ATTEMPTS
abbrev pub fiemap_attempts : ℕ
fiemap_attempts = 8

-- Whether bit `k` of a word is set.
abbrev pub has_bit : ℕ → ℕ → Bool
has_bit word k = word / 2 ^ k % 2 == 1

-- FIEMAP_EXTENT_LAST is bit 0.
abbrev pub is_last : FiemapExtent → Bool
is_last fe = has_bit fe.fe_flags 0

-- Behind an answer: where the run with the flush failed, a run without it follows.
unfoldable pub retried : FiemapIoctl → ℕ → Bool → ℕ → Result Fiemap → ℕ × Result Fiemap
retried ioctl k sync count (ok f) = (k + 1, ok f)
retried ioctl k sync count (err e) =
    if sync then (k + 1 + 1, ioctl (k + 1) false count) else (k + 1, err e)

-- `fiemap_ioctl`, from the call of a number on: the number of the next call, and the answer.
unfoldable pub fiemap_ioctl : FiemapIoctl → ℕ → Bool → ℕ → ℕ × Result Fiemap
fiemap_ioctl ioctl k sync count = retried ioctl k sync count (ioctl k sync count)

-- What a round of read_fiemap() does with the answer of its second ioctl.
unfoldable pub whole_or : Result Fiemap → ℕ → ℕ × Result Fiemap → Result Fiemap
whole_or rest count (k, err e) = err e
whole_or rest count (k, ok f) =
    if ltb f.mapped_extents count || is_last (f.extents (f.mapped_extents - 1)) then ok f else rest

-- What it does with the answer of its first.
unfoldable pub read_counted :
    FiemapIoctl → Sys → (ℕ → Result Fiemap) → ℕ × Result Fiemap → Result Fiemap
read_counted ioctl realloc again (k, err e) = err e
read_counted ioctl realloc again (k, ok f) = if f.mapped_extents == 0 then ok f else elim realloc [
  | some e ↦ err e
  | none ↦
      let second = fiemap_ioctl ioctl k false f.mapped_extents in
      whole_or (again second.0) f.mapped_extents second
]

-- The loop of read_fiemap(), for the attempts that are left, the first of which flushes.
unfoldable pub read_attempts : FiemapIoctl → (ℕ → Sys) → ℕ → Bool → ℕ → Result Fiemap
read_attempts ioctl realloc zero sync k = err eagain
read_attempts ioctl realloc (suc n) sync k =
    read_counted ioctl (realloc n) (read_attempts ioctl realloc n false)
      (fiemap_ioctl ioctl k sync 0)

-- `read_fiemap`
unfoldable pub read_fiemap : FiemapIoctl → (ℕ → Sys) → Result Fiemap
read_fiemap ioctl realloc = read_attempts ioctl realloc fiemap_attempts true 0

-- The flags of FIEMAP that say that an extent's address is none to read at: UNKNOWN, DELALLOC, ENCODED,
-- DATA_ENCRYPTED, NOT_ALIGNED, DATA_INLINE and DATA_TAIL.
unfoldable pub has_no_address : ℕ → Bool
has_no_address fe_flags =
    has_bit fe_flags 1
    || has_bit fe_flags 2
    || has_bit fe_flags 3
    || has_bit fe_flags 7
    || has_bit fe_flags 8
    || has_bit fe_flags 9
    || has_bit fe_flags 10

-- `fiemap_extent_flag`. XAL_EXTENT_UNWRITTEN, SHARED and NOADDR are bits 0, 1 and 2, so `|=` adds them.
unfoldable pub fiemap_extent_flag : ℕ → ℕ
fiemap_extent_flag fe_flags =
    (if has_bit fe_flags 11 then 1 else 0)
    + (if has_bit fe_flags 13 then 2 else 0)
    + (if has_no_address fe_flags then 4 else 0)
