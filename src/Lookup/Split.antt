-- ===== src/Lookup/Split.antt =====
-- How search_by_traversal() (src/xal.c) takes a path apart: the loop ends, and its components are those
-- of the path.
use xal.Base.{
  ℕ, zero, suc, ◌<◌, ◌≡◌, refl, List, [], ◌∷◌, Option, none, some, Result, ok, err, arith, length,
  Bool-cases, inl, inr, ◌==◌, if◌then◌else◌,
}
use xal.Reader.{View}
use xal.Lookup.{next_component, go_on, Found, search_loop}

-- What is behind a component's '/' is shorter than the path.
abbrev pub Shorter : ℕ → Option (List ℕ) → Type 0
Shorter n none = Unit {0}
Shorter n (some rest) = length rest < n

Shorter-suc : (n : ℕ) (o : Option (List ℕ)) → Shorter n o → Shorter (suc n) o
Shorter-suc n none h = tt
Shorter-suc n (some rest) h = omega arith

pub next_component-Shorter : (path : List ℕ) → Shorter (length path) (next_component path).1
unfolding next_component
next_component-Shorter [] = tt
next_component-Shorter (c ∷ cs) = elim (Bool-cases (c == b'/')) [
  | inl slash ↦ rw slash (omega arith)
  | inr other ↦ rw other (Shorter-suc (length cs) (next_component cs).1 (next_component-Shorter cs))
]

-- The components of a path, by recursion on it.
unfoldable pub push : ℕ → List (List ℕ) → List (List ℕ)
push c [] = (c ∷ []) ∷ []
push c (x ∷ xs) = (c ∷ x) ∷ xs

unfoldable pub components : List ℕ → List (List ℕ)
components [] = [] ∷ []
components (c ∷ cs) = if c == b'/' then [] ∷ components cs else push c (components cs)

abbrev pub first_and_rest : List ℕ → Option (List ℕ) → List (List ℕ)
first_and_rest c none = c ∷ []
first_and_rest c (some rest) = c ∷ components rest

push-first_and_rest :
    (c : ℕ) (x : List ℕ) (o : Option (List ℕ))
    → push c (first_and_rest x o) ≡ first_and_rest (c ∷ x) o
unfolding push
push-first_and_rest c x none = refl
push-first_and_rest c x (some rest) = refl

-- The loop's way to take a path apart gives its components.
pub components-next :
    (path : List ℕ)
    → components path ≡ first_and_rest (next_component path).0 (next_component path).1
unfolding components next_component
components-next [] = refl
components-next (c ∷ cs) = elim (Bool-cases (c == b'/')) [
  | inl slash ↦ rw slash
  | inr other ↦
      rw (other, components-next cs)
        (push-first_and_rest c (next_component cs).0 (next_component cs).1)
]

module _ (bsearch : List ℕ → List (List ℕ) → Option ℕ) where
  go_on-cong :
      (f g : ℕ → ℕ → List ℕ → ℕ × Result ℕ) (n : ℕ) (rest : Option (List ℕ)) (r : Found)
      → Shorter n rest
      → ((t dir : ℕ) (path : List ℕ) → length path < n → f t dir path ≡ g t dir path)
      → go_on f rest r ≡ go_on g rest r
  unfolding go_on
  go_on-cong f g n rest (t, err e) h same = refl
  go_on-cong f g n rest (t, ok none) h same = refl
  go_on-cong f g n none (t, ok (some child)) h same = refl
  go_on-cong f g n (some path) (t, ok (some child)) h same = same t child path h

  -- The fuel is never used up: two amounts above the path's length give the same run, so the loop of
  -- search_by_traversal() ends after at most one round for each byte.
  pub search_loop-fuel :
      (v : View) (f g t dir : ℕ) (path : List ℕ)
      → length path < f
      → length path < g
      → search_loop bsearch v f t dir path ≡ search_loop bsearch v g t dir path
  unfolding search_loop
  search_loop-fuel v zero g t dir path h k = absurd (omega arith)
  search_loop-fuel v (suc f) zero t dir path h k = absurd (omega arith)
  search_loop-fuel v (suc f) (suc g) t dir path h k =
      go_on-cong _ _ (length path) _ _ (next_component-Shorter path)
        λ t' d p lt. search_loop-fuel v f g t' d p (omega arith) (omega arith)
