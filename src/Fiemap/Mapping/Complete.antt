-- ===== src/Fiemap/Mapping/Complete.antt =====
-- read_fiemap() (src/xal_be_fiemap.c) against a kernel that answers from what the file's mapping is at
-- each call.
use xal.Base.{
  ℕ, zero, suc, ◌+◌, ◌-◌, ◌<◌, ◌≡◌, refl, ap, ◌∙◌, Bool, true, false, none, List, [], ◌∷◌, Result,
  ok, err, eagain, leb, ltb, ◌==◌, ◌||◌, if◌then◌else◌, length, get_or, min, arith, ◌⊎◌, Bool-cases,
  inl, inr,
}
use xal.Fiemap.State.{FiemapExtent, Fiemap, FiemapIoctl}
use xal.Fiemap.Mapping.{
  fiemap_attempts, is_last, retried, fiemap_ioctl, whole_or, read_counted, read_attempts,
  read_fiemap,
}

-- The first `n` extents of a result.
unfoldable pub first_extents : (ℕ → FiemapExtent) → ℕ → List FiemapExtent
first_extents f zero = []
first_extents f (suc n) = f 0 ∷ first_extents (λ i. f (suc i)) n

abbrev pub listed : Result Fiemap → Result (List FiemapExtent)
listed (err e) = err e
listed (ok f) = ok (first_extents f.extents f.mapped_extents)

-- What stands in the array where the kernel has written nothing.
abbrev pub no_extent : FiemapExtent
no_extent = record { fe_logical = 0; fe_physical = 0; fe_length = 0; fe_flags = 0 }

-- The documented behaviour of FS_IOC_FIEMAP on a file whose mapping at call k is `file k`: with a count
-- of 0 it gives the number of extents, else as many of the first as fit.
unfoldable pub kernel : (ℕ → List FiemapExtent) → FiemapIoctl
kernel file k sync zero = ok (record { mapped_extents = length (file k); extents = λ _. no_extent })
kernel file k sync (suc c) = ok (record {
  mapped_extents = min (suc c) (length (file k));
  extents = λ i. get_or (file k) i no_extent;
})

-- What every mapping has that the kernel reports: the last extent alone has FIEMAP_EXTENT_LAST.
abbrev pub IsFlagged : List FiemapExtent → Type 0
IsFlagged xs = (i : ℕ) → i < length xs → is_last (get_or xs i no_extent) ≡ (i + 1 == length xs)

-- The mapping that some attempt reads whole: the first in which the file has no extent, or has no more
-- at the read than it had at the count before it. The first attempt's calls are `k` and `k + 1`.
unfoldable pub whole_mapping : (ℕ → List FiemapExtent) → ℕ → ℕ → Result (List FiemapExtent)
whole_mapping file zero k = err eagain
whole_mapping file (suc n) k =
    let rest = whole_mapping file n (k + 1 + 1) in
    if length (file k) == 0
    then ok []
    else if leb (length (file (k + 1))) (length (file k))
    then ok (file (k + 1))
    else rest

first_extents-whole :
    (xs : List FiemapExtent) (n : ℕ)
    → n ≡ length xs
    → first_extents (λ i. get_or xs i no_extent) n ≡ xs
unfolding first_extents
first_extents-whole [] zero e = refl
first_extents-whole [] (suc n) e = absurd (omega (arith, e))
first_extents-whole (x ∷ xs) zero e = absurd (omega (arith, e))
first_extents-whole (x ∷ xs) (suc n) e =
    ap (λ l. x ∷ l) (first_extents-whole xs n (omega (arith, e)))

whole_test :
    (xs : List FiemapExtent) (c : ℕ)
    → IsFlagged xs
    → let n = min (suc c) (length xs) in
      (ltb n (suc c) || is_last (get_or xs (n - 1) no_extent)) ≡ leb (length xs) (suc c)
whole_test xs c flagged = elim (Bool-cases (ltb (length xs) (suc c))) [
  | inl e ↦ ground arith
  | inr e ↦
      let last : min (suc c) (length xs) - 1 ≡ c = ground arith in
      rw (last, flagged c (ground arith)) (ground arith)
]

-- The array of `c + 1` extents is filled up to the last, or the mapping is longer.
whole_read :
    (xs : List FiemapExtent) (c : ℕ) (rest : Result Fiemap)
    → IsFlagged xs
    → let n = min (suc c) (length xs) in
      let f : Fiemap = record { mapped_extents = n; extents = λ i. get_or xs i no_extent } in
      (if ltb n (suc c) || is_last (get_or xs (n - 1) no_extent) then ok f else rest) ≡ (
        if leb (length xs) (suc c)
        then ok (record { mapped_extents = length xs; extents = λ i. get_or xs i no_extent })
        else rest)
whole_read xs c rest flagged =
    rw (whole_test xs c flagged) (elim (Bool-cases (leb (length xs) (suc c))) [
      | inl e ↦ let n : min (suc c) (length xs) ≡ length xs = ground arith in rw (e, n) refl
      | inr e ↦ rw e refl
    ])

second_read :
    (file : ℕ → List FiemapExtent) (k c : ℕ) (rest : Result Fiemap)
    → IsFlagged (file k)
    → listed (whole_or rest (suc c) (fiemap_ioctl (kernel file) k false (suc c)))
      ≡ (if leb (length (file k)) (suc c) then ok (file k) else listed rest)
unfolding whole_or fiemap_ioctl retried kernel
second_read file k c rest flagged =
    rw (whole_read (file k) c rest flagged) (elim (Bool-cases (leb (length (file k)) (suc c))) [
      | inl e ↦ rw (e, first_extents-whole (file k) (length (file k)) refl) refl
      | inr e ↦ rw e refl
    ])

zero_or_suc : (n : ℕ) → (n ≡ 0) ⊎ ((c : ℕ) × (n ≡ suc c))
zero_or_suc zero = inl refl
zero_or_suc (suc c) = inr (c, refl)

attempts_lem :
    (file : ℕ → List FiemapExtent) (n k : ℕ) (sync : Bool)
    → ((j : ℕ) → IsFlagged (file j))
    → listed (read_attempts (kernel file) (λ _. none) n sync k) ≡ whole_mapping file n k
unfolding read_attempts whole_mapping read_counted fiemap_ioctl retried kernel first_extents
attempts_lem file zero k sync flagged = refl
attempts_lem file (suc n) k sync flagged = elim (zero_or_suc (length (file k))) [
  | inl e ↦ rw e refl
  | inr (c, e) ↦
      let some_extent : (suc c == 0) ≡ false = ground arith in
      let again : Result Fiemap = read_attempts (kernel file) (λ _. none) n false (k + 1 + 1) in
      rw (e, some_extent)
        (second_read file (k + 1) c again (flagged (k + 1))
          ∙ ap (λ r. if leb (length (file (k + 1))) (suc c) then ok (file (k + 1)) else r)
              (attempts_lem file n (k + 1 + 1) false flagged))
]

-- Where realloc() never fails and the kernel answers each call without an error, with
-- FIEMAP_EXTENT_LAST on exactly the last extent of a mapping, whatever the mapping of the file is at
-- each call, read_fiemap() returns the whole mapping as one of its reads found it, of the first of
-- eight attempts in which the file has no extent or has at the read no more than at the count, and
-- EAGAIN if there is none.
pub read_fiemap-whole_mapping :
    (file : ℕ → List FiemapExtent)
    → ((k : ℕ) → IsFlagged (file k))
    → listed (read_fiemap (kernel file) (λ _. none)) ≡ whole_mapping file fiemap_attempts 0
unfolding read_fiemap
read_fiemap-whole_mapping file flagged = attempts_lem file fiemap_attempts 0 true flagged
