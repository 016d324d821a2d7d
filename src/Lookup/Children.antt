-- ===== src/Lookup/Children.antt =====
-- What search_by_traversal() (src/xal.c) finds on an index at rest: the inode that the components of the
-- path lead to.
pub mod Names
use xal.Base.{
  ℕ, zero, suc, ◌+◌, ◌-◌, ◌≤◌, ◌<◌, ◌≡◌, ◌≢◌, refl, sym, ap, ◌∙◌, List, [], ◌∷◌, Option, none, some,
  Result, ok, err, arith, ltb, ◌==◌, if◌then◌else◌, true, false, length, get_elem?, enoent,
  Bool-cases, Option-cases, inl, inr, ◌⊎◌,
}
use xal.Model.{is_dir, pool_idx_none}
use xal.Reader.{View, node, Pools, Seen, still}
use Names.{Ascending, Ascending-unique, Searches}
use xal.Lookup.Split.{components, first_and_rest, components-next, Shorter, next_component-Shorter}
use xal.Lookup.{
  next_component, names_at, child_index, go_on, Found, search_level, search_loop, out_of_range,
}

-- `j` is one of the inodes that the content words of `d` span, and is called `name`.
pub record Child (p : Pools) (d : ℕ) (name : List ℕ) (j : ℕ) : Type 0 where
  pub offset : ℕ
  pub in_span : offset < (p.inodes.elems d).content.count
  pub place : j ≡ (p.inodes.elems d).content.idx + offset
  pub called : (p.inodes.elems j).name ≡ name

-- The components lead from `d` to `j`, each to a child of the inode before it; the inodes that children
-- are taken from satisfy `Q`.
pub data Leads (p : Pools) (Q : ℕ → Type 0) : ℕ → List (List ℕ) → ℕ → Type 0 where
  last : {d j : ℕ} {c : List ℕ} → Q d → Child p d c j → Leads p Q d (c ∷ []) j
  down :
      {d k j : ℕ} {c : List ℕ} {cs : List (List ℕ)}
      → Q d
      → Child p d c k
      → Leads p Q k cs j
      → Leads p Q d (c ∷ cs) j

-- The children of `d` lie in the pool, with names in strictly rising order.
pub record IsSpan (m : Seen) (d : ℕ) : Type 0 where
  pub in_range :
      out_of_range m.pools.inodes.allocated
        (m.pools.inodes.elems d).content.idx
        (m.pools.inodes.elems d).content.count
      ≡ false
  pub rising : Ascending (
      names_at
        (still m)
        0
        (m.pools.inodes.elems d).content.idx
        (m.pools.inodes.elems d).content.count)

get_elem?-names_at :
    (m : Seen) (t i n k : ℕ)
    → k < n
    → get_elem? (names_at (still m) t i n) k ≡ some ((m.pools.inodes.elems (i + k)).name)
unfolding names_at
get_elem?-names_at m t i zero k h = absurd (omega arith)
get_elem?-names_at m t i (suc n) zero h = ground arith
get_elem?-names_at m t i (suc n) (suc k) h =
    let e : i + 1 + k ≡ i + suc k = omega arith in
    rw (← e) (get_elem?-names_at m (t + 1) (i + 1) n k (omega arith))

names_at-in :
    (m : Seen) (t i n k : ℕ) {x : List ℕ} → get_elem? (names_at (still m) t i n) k ≡ some x → k < n
unfolding names_at
names_at-in m t i zero k h = cc
names_at-in m t i (suc n) zero h = omega arith
names_at-in m t i (suc n) (suc k) h = omega (arith, names_at-in m (t + 1) (i + 1) n k h)

names_at-still : (m : Seen) (t u i n : ℕ) → names_at (still m) t i n ≡ names_at (still m) u i n
unfolding names_at
names_at-still m t u i zero = refl
names_at-still m t u i (suc n) =
    ap (λ xs. (m.pools.inodes.elems i).name ∷ xs) (names_at-still m (t + 1) (u + 1) (i + 1) n)

Leads-cons :
    {p : Pools} {Q : ℕ → Type 0} {d j : ℕ} {c : List ℕ} {cs : List (List ℕ)}
    → Leads p Q d (c ∷ cs) j
    → ((cs ≡ []) × Q d × Child p d c j) ⊎ ((k : ℕ) × Q d × Child p d c k × Leads p Q k cs j)
Leads-cons (last q ch) = inl (refl, q, ch)
Leads-cons (down {k = k} q ch l) = inr (k, q, ch, l)

not-Leads-nil :
    {p : Pools} {Q : ℕ → Type 0} {d j : ℕ} {cs : List (List ℕ)} → cs ≡ [] → ¬ Leads p Q d cs j
not-Leads-nil e (last q ch) = cc
not-Leads-nil e (down q ch l) = cc

components-ne-nil : (path : List ℕ) → components path ≢ []
components-ne-nil path e = go (next_component path).1 (sym (components-next path) ∙ e)
  where
    go : (o : Option (List ℕ)) → first_and_rest (next_component path).0 o ≢ []
    go none h = cc
    go (some rest) h = cc

module _ {bsearch : List ℕ → List (List ℕ) → Option ℕ} (s : Searches bsearch) where
  pub hit-Child :
      (m : Seen) (t d j i n : ℕ) (c : List ℕ)
      → i ≡ (m.pools.inodes.elems d).content.idx
      → n ≡ (m.pools.inodes.elems d).content.count
      → child_index i (bsearch c (names_at (still m) t i n)) ≡ some j
      → Child m.pools d c j
  unfolding child_index
  hit-Child m t d j i n c ei en h = elim (Option-cases (bsearch c (names_at (still m) t i n))) [
    | inl e ↦ absurd (ground arith)
    | inr (k, e) ↦
        let at = s.hit c (names_at (still m) t i n) e in
        let small = names_at-in m t i n k at in
        let place : j ≡ i + k = ground arith in
        record {
          offset = k;
          in_span = omega arith;
          place = omega arith;
          called = rw place (cc (get_elem?-names_at m t i n k small));
        }
  ]

  level_sound :
      (m : Seen) (t d j : ℕ) (c : List ℕ)
      → (search_level bsearch (still m) t d c).1 ≡ ok (some j)
      → Child m.pools d c j
  unfolding search_level
  level_sound m t d j c h = hit-Child m (t + 3) d j _ _ c refl refl (ground arith)

  pub child_index-Child :
      (m : Seen) (t d j : ℕ) (c : List ℕ)
      → IsSpan m d
      → Child m.pools d c j
      → let i = (m.pools.inodes.elems d).content.idx in
        let n = (m.pools.inodes.elems d).content.count in
        child_index i (bsearch c (names_at (still m) t i n)) ≡ some j
  unfolding child_index
  child_index-Child m t d j c span ch = elim (Option-cases (bsearch c names)) [
    | inl e ↦ absurd (s.miss c names ch.offset rising e at)
    | inr (k, e) ↦
        let same = Ascending-unique names k ch.offset rising (s.hit c names e) at in
        rw e (ap some (omega (arith, same, ch.place)))
  ]
    where
      names : List (List ℕ)
      names =
          names_at (still m) t (m.pools.inodes.elems d).content.idx
            (m.pools.inodes.elems d).content.count

      rising : Ascending names
      rising = rw (names_at-still m t 0) span.rising

      at : get_elem? names ch.offset ≡ some c
      at = get_elem?-names_at m t _ _ ch.offset ch.in_span ∙ ap some (rw (← ch.place) ch.called)

  level_complete :
      (m : Seen) (t d j : ℕ) (c : List ℕ)
      → IsSpan m d
      → Child m.pools d c j
      → (search_level bsearch (still m) t d c).1 ≡ ok (some j)
  unfolding search_level
  level_complete m t d j c span ch =
      ground (arith, span.in_range, ch.in_span, child_index-Child m (t + 3) d j c span ch)

  go_on_sound :
      (p : Pools) (f : ℕ → ℕ → List ℕ → ℕ × Result ℕ) (d j : ℕ) (c : List ℕ) (o : Option (List ℕ))
      (r : Found)
      → ((k : ℕ) → r.1 ≡ ok (some k) → Child p d c k)
      → ((t k : ℕ) (path : List ℕ)
          → (f t k path).1 ≡ ok j
          → Leads p (λ _. Unit {0}) k (components path) j)
      → (go_on f o r).1 ≡ ok j
      → Leads p (λ _. Unit {0}) d (first_and_rest c o) j
  unfolding go_on
  go_on_sound p f d j c o (t, err e) here on h = cc
  go_on_sound p f d j c o (t, ok none) here on h = cc
  go_on_sound p f d j c none (t, ok (some k)) here on h =
      let e : k ≡ j = cc in last tt (here j (ap (λ x. ok (some x)) e))
  go_on_sound p f d j c (some path) (t, ok (some k)) here on h =
      down tt (here k refl) (on t k path h)

  -- The loop goes down by the content words that it finds, whatever the types of the inodes are.
  pub loop_sound :
      (m : Seen) (f t d j : ℕ) (path : List ℕ)
      → (search_loop bsearch (still m) f t d path).1 ≡ ok j
      → Leads m.pools (λ _. Unit {0}) d (components path) j
  unfolding search_loop
  loop_sound m zero t d j path h = cc
  loop_sound m (suc f) t d j path h = rw (components-next path) (
      go_on_sound m.pools (search_loop bsearch (still m) f) d j (next_component path).0
        (next_component path).1 (search_level bsearch (still m) t d (next_component path).0)
        (λ k. level_sound m t d k (next_component path).0) (λ u k rest. loop_sound m f u k j rest)
        h)

  go_on_complete :
      (m : Seen) (Q : ℕ → Type 0) (f : ℕ → ℕ → List ℕ → ℕ × Result ℕ) (n d j : ℕ) (c : List ℕ)
      (o : Option (List ℕ)) (r : Found)
      → ((k : ℕ) → Q d → Child m.pools d c k → r.1 ≡ ok (some k))
      → ((t k : ℕ) (path : List ℕ)
          → length path < n
          → Leads m.pools Q k (components path) j
          → (f t k path).1 ≡ ok j)
      → Shorter n o
      → Leads m.pools Q d (first_and_rest c o) j
      → (go_on f o r).1 ≡ ok j
  unfolding go_on
  go_on_complete m Q f n d j c none (t, r) here on lt l = elim (Leads-cons l) [
    | inl (_, q, ch) ↦ rw (here j q ch, go_on)
    | inr (k, q, ch, l') ↦ absurd (not-Leads-nil refl l')
  ]
  go_on_complete m Q f n d j c (some path) (t, r) here on lt l = elim (Leads-cons l) [
    | inl (e, q, ch) ↦ absurd (components-ne-nil path e)
    | inr (k, q, ch, l') ↦ rw (here k q ch, go_on) (on t k path lt l')
  ]

  pub loop_complete :
      (m : Seen) (Q : ℕ → Type 0) (f t d j : ℕ) (path : List ℕ)
      → ((k : ℕ) → Q k → IsSpan m k)
      → length path < f
      → Leads m.pools Q d (components path) j
      → (search_loop bsearch (still m) f t d path).1 ≡ ok j
  unfolding search_loop
  loop_complete m Q zero t d j path spans lt l = absurd (omega arith)
  loop_complete m Q (suc f) t d j path spans lt l =
      go_on_complete m Q (search_loop bsearch (still m) f) (length path) d j (next_component path).0
        (next_component path).1 (search_level bsearch (still m) t d (next_component path).0)
        (λ k q ch. level_complete m t d k (next_component path).0 (spans d q) ch)
        (λ u k rest short. loop_complete m Q f u k j rest spans (omega arith))
        (next_component-Shorter path) (rw (components-next path) at l)
