-- ===== src/Lookup/Children/Names.antt =====
-- The order of names in a directory, strcmp(), and what bsearch() promises on it.
use xal.Base.{
  ℕ, zero, suc, ◌≡◌, ◌≢◌, refl, ap, Bool, true, false, List, [], ◌∷◌, Option, none, some, arith,
  ltb, ◌==◌, if◌then◌else◌, get_elem?, All, ◌↔◌,
}
use mathlib.Core.Path.{subst}
use xal.Lookup.{same_name}

-- `strcmp(x, y) < 0`
unfoldable pub precedes : List ℕ → List ℕ → Bool
precedes [] [] = false
precedes [] (y ∷ ys) = true
precedes (x ∷ xs) [] = false
precedes (x ∷ xs) (y ∷ ys) = if x == y then precedes xs ys else ltb x y

-- Names in strictly rising order, as qsort() by strcmp() leaves the distinct names of a directory.
abbrev pub Ascending : List (List ℕ) → Type 0
Ascending [] = Unit {0}
Ascending (x ∷ xs) = All (λ y. precedes x y ≡ true) xs × Ascending xs

precedes-irreflexive : (x : List ℕ) → precedes x x ≡ false
unfolding precedes
precedes-irreflexive [] = refl
precedes-irreflexive (x ∷ xs) = ground (arith, precedes-irreflexive xs)

All-get {ℓ} :
    {A : Type ℓ} (P : A → Type 0) (xs : List A) (k : ℕ) {x : A}
    → All P xs
    → get_elem? xs k ≡ some x
    → P x
All-get P [] k h e = cc
All-get P (y ∷ xs) zero {x = x} h e = let same : y ≡ x = cc in subst P same h.0
All-get P (y ∷ xs) (suc k) h e = All-get P xs k h.1 e

-- A name stands at one place only.
pub Ascending-unique :
    (xs : List (List ℕ)) (j k : ℕ) {x : List ℕ}
    → Ascending xs
    → get_elem? xs j ≡ some x
    → get_elem? xs k ≡ some x
    → j ≡ k
Ascending-unique [] j k a p q = cc
Ascending-unique (y ∷ xs) zero zero a p q = refl
Ascending-unique (y ∷ xs) zero (suc k) {x} a p q =
    let e : y ≡ x = cc in
    let l : precedes y x ≡ true = All-get (λ z. precedes y z ≡ true) xs k a.0 q in
    cc (precedes-irreflexive x)
Ascending-unique (y ∷ xs) (suc j) zero {x} a p q =
    let e : y ≡ x = cc in
    let l : precedes y x ≡ true = All-get (λ z. precedes y z ≡ true) xs j a.0 p in
    cc (precedes-irreflexive x)
Ascending-unique (y ∷ xs) (suc j) (suc k) a p q = ap suc (Ascending-unique xs j k a.1 p q)

-- bsearch() with compare_name_to_inode() over the names of a directory: a hit is a match, and in
-- rising order a name that is there is found.
pub record Searches (bsearch : List ℕ → List (List ℕ) → Option ℕ) : Type 0 where
  pub hit :
      (x : List ℕ) (xs : List (List ℕ)) {k : ℕ} → bsearch x xs ≡ some k → get_elem? xs k ≡ some x
  pub miss :
      (x : List ℕ) (xs : List (List ℕ)) (k : ℕ)
      → Ascending xs
      → bsearch x xs ≡ none
      → get_elem? xs k ≢ some x

unfoldable pub next_position : Option ℕ → Option ℕ
next_position none = none
next_position (some k) = some (suc k)

-- A search that does as promised: the first match.
unfoldable pub first_match : List ℕ → List (List ℕ) → Option ℕ
first_match x [] = none
first_match x (y ∷ ys) = if same_name x y then some 0 else next_position (first_match x ys)

pub same_name_iff : (x y : List ℕ) → (same_name x y ≡ true) ↔ (x ≡ y)
unfolding same_name
same_name_iff [] [] = ground arith
same_name_iff [] (y ∷ ys) = ground arith
same_name_iff (x ∷ xs) [] = ground arith
same_name_iff (x ∷ xs) (y ∷ ys) = ground (arith, same_name_iff xs ys)

first_match-hit :
    (x : List ℕ) (xs : List (List ℕ)) (k : ℕ) → first_match x xs ≡ some k → get_elem? xs k ≡ some x
unfolding first_match next_position
first_match-hit x [] k h = cc
first_match-hit x (y ∷ ys) zero h = ground (arith, same_name_iff x y)
first_match-hit x (y ∷ ys) (suc k) h = ground (arith, first_match-hit x ys k)

first_match-miss :
    (x : List ℕ) (xs : List (List ℕ)) (k : ℕ) → first_match x xs ≡ none → get_elem? xs k ≢ some x
unfolding first_match next_position
first_match-miss x [] k h e = cc
first_match-miss x (y ∷ ys) zero h e = ground (arith, same_name_iff x y)
first_match-miss x (y ∷ ys) (suc k) h e = ground (arith, first_match-miss x ys k)

pub first_match-Searches : Searches first_match
first_match-Searches = record {
  hit = λ x xs {k} h. first_match-hit x xs k h;
  miss = λ x xs k _ h. first_match-miss x xs k h;
}
