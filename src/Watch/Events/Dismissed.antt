-- ===== src/Watch/Events/Dismissed.antt =====
-- No event is swallowed (src/xal_be_fiemap_inotify.c): which events check_events() passes over.
use xal.Base.{
  ℕ, ◌≡◌, refl, ap, ◌∙◌, inl, inr, ◌↔◌, true, false, List, [], ◌∷◌, Option, none, some, ok, eagain,
  arith, All, ◌++◌, ◌==◌, sym, ◌&&◌, not, Option-cases, Bool-cases,
}
use xal.Pool.{Sys}
use xal.Reader.{still}
use xal.Lookup.{strip_prefix}
use xal.Lookup.Children.{IsSpan}
use xal.Lookup.Children.Names.{Searches}
use xal.Lookup.Find.{Directory}
use xal.Fiemap.State.{Bytes, is_snapshot_name, snapshot_prefix, is_some}
use xal.Watch.Events.Missing.{IsLeftOut, missing_iff}
use xal.Watch.Events.{
  Arrival, is_unmount, is_overflow, is_ignored, has_name, nochange, missing_and_skipped,
  event_entry, check_event, check_buffer, check_events, Event, entry_of,
}

-- The index that the thread finds with an event is at rest, and its directories have their children in the
-- pool, sorted by name. The lock of the index that the thread holds is what keeps it at rest.
pub record AtRest (a : Arrival) : Type 0 where
  pub rest : a.view ≡ still (a.view 0)
  pub spans : (k : ℕ) → Directory (a.view 0).pools k → IsSpan (a.view 0) k

strip_prefix-append : (p rest : Bytes) → strip_prefix p (p ++ rest) ≡ some rest
unfolding strip_prefix
strip_prefix-append [] rest = refl
strip_prefix-append (b ∷ p) rest = ground (arith, strip_prefix-append p rest)

strip_prefix-inversion : (p path rest : Bytes) → strip_prefix p path ≡ some rest → path ≡ p ++ rest
unfolding strip_prefix
strip_prefix-inversion [] path rest h = cc
strip_prefix-inversion (b ∷ p) [] rest h = absurd (ground (arith, h))
strip_prefix-inversion (b ∷ p) (c ∷ path) rest h = elim (Bool-cases (b == c)) [
  | inl e ↦
      let same : b ≡ c = ground (arith, e) in
      let tail : path ≡ p ++ rest = strip_prefix-inversion p path rest (rw e at h) in cc
  | inr n ↦ absurd (cc (rw n at h))
]

-- A name that begins with XAL_SNAPSHOT_PREFIX.
abbrev pub IsShadow : Bytes → Type 0
IsShadow name = (rest : Bytes) × (name ≡ snapshot_prefix ++ rest)

is_snapshot_name_iff : (name : Bytes) → (is_snapshot_name name ≡ true) ↔ IsShadow name
unfolding is_snapshot_name is_some
is_snapshot_name_iff name = (
  λ h. elim (Option-cases (strip_prefix snapshot_prefix name)) [
    | inl e ↦ absurd (cc (rw e at h))
    | inr (rest, e) ↦ (rest, strip_prefix-inversion snapshot_prefix name rest e)
  ],
  λ (rest, e). rw (e, strip_prefix-append snapshot_prefix rest) refl,
)

shadow-has_name : (e : Event) → IsShadow e.name → has_name e ≡ true
shadow-has_name e (rest, same) = rw same refl

module _ (bsearch : Bytes → List Bytes → Option ℕ) (base : Bytes) (cap : ℕ) where
  -- The events that say nothing of the files that the index is about: the end of a watch; one that names
  -- a shadow directory; and one that names, while nothing indexes and the lock of the index is free, an
  -- entry that the index leaves out.
  pub data Dismissed (a : Arrival) : Type 0 where
    watch_ended : is_overflow a.event ≡ false → is_ignored a.event ≡ true → Dismissed a
    own_snapshot :
        is_overflow a.event ≡ false
        → is_unmount a.event ≡ false
        → IsShadow a.event.name
        → Dismissed a
    left_out :
        is_overflow a.event ≡ false
        → is_unmount a.event ≡ false
        → has_name a.event ≡ true
        → a.indexing ≡ false
        → a.trylock ≡ true
        → IsLeftOut bsearch base cap (a.view 0) a.event.name (a.inode_map a.event.wd) a.statx
        → Dismissed a

  -- The answer of the read() behind the last events says that the queue is dry.
  abbrev pub IsDry : Sys → Type 0
  IsDry none = Unit {0}
  IsDry (some e) = e ≡ eagain

  module _ (s : Searches bsearch) where
    entry_iff :
        (a : Arrival)
        → AtRest a
        → (missing_and_skipped a.statx (event_entry bsearch base cap a) ≡ true)
          ↔ IsLeftOut bsearch base cap (a.view 0) a.event.name (a.inode_map a.event.wd) a.statx
    unfolding event_entry
    entry_iff a i =
        let same =
          ap
            (λ v.
              missing_and_skipped a.statx
                (entry_of bsearch base cap v a.event.name (a.inode_map a.event.wd)))
            i.rest in
        let (to, from) =
          missing_iff bsearch base cap s (a.view 0) a.event.name (a.inode_map a.event.wd) a.statx
            i.spans in
        (λ h. to (sym same ∙ h), λ l. same ∙ from l)

    event-Dismissed : (a : Arrival) → AtRest a → Dismissed a → check_event bsearch base cap a ≡ none
    unfolding check_event
    event-Dismissed a i (watch_ended o e) = ground (arith, o, e)
    event-Dismissed a i (own_snapshot o u n) =
        ground (arith, o, u, shadow-has_name a.event n, (is_snapshot_name_iff a.event.name).1 n)
    event-Dismissed a i (left_out o u n x t l) = ground (arith, o, u, n, x, t, (entry_iff a i).1 l)

    Dismissed-event : (a : Arrival) → AtRest a → check_event bsearch base cap a ≡ none → Dismissed a
    unfolding check_event
    Dismissed-event a rest h = elim (Bool-cases (is_overflow a.event)) [
      | inl o ↦ absurd (ground (arith, o, h))
      | inr o ↦ elim (Bool-cases (is_ignored a.event)) [
        | inl i ↦ watch_ended o i
        | inr i ↦ elim (Bool-cases (is_unmount a.event)) [
          | inl u ↦ absurd (ground (arith, o, i, u, h))
          | inr u ↦ elim (Bool-cases (has_name a.event && is_snapshot_name a.event.name)) [
            | inl s ↦ own_snapshot o u ((is_snapshot_name_iff a.event.name).0 (ground (arith, s)))
            | inr s ↦
                let test : (has_name a.event
                      && not a.indexing
                      && a.trylock
                      && missing_and_skipped a.statx (event_entry bsearch base cap a))
                    ≡ true =
                  ground (arith, o, i, u, s, h) in
                left_out o u (ground (arith, test)) (ground (arith, test)) (ground (arith, test))
                  ((entry_iff a rest).0 (ground (arith, test)))
          ]
        ]
      ]
    ]

    check_buffer_iff :
        (b : List Arrival)
        → All AtRest b
        → (check_buffer bsearch base cap b ≡ none) ↔ All Dismissed b
    unfolding check_buffer
    check_buffer_iff [] _ = (λ _. tt, λ _. refl)
    check_buffer_iff (a ∷ b) (r, rs) = (
      λ h. elim (Option-cases (check_event bsearch base cap a)) [
        | inl e ↦ (Dismissed-event a r e, (check_buffer_iff b rs).0 (rw (e, check_buffer) at h))
        | inr (x, e) ↦ absurd (ground (arith, e, h))
      ],
      λ (d, ds). rw (event-Dismissed a r d, check_buffer) ((check_buffer_iff b rs).1 ds),
    )

    -- Whether an event asks for something.
    event_never : (a : Arrival) → (check_event bsearch base cap a ≡ some (ok nochange)) → ⊥
    unfolding check_event
    event_never a h = ground (arith, h)

    buffer_never : (b : List Arrival) → (check_buffer bsearch base cap b ≡ some (ok nochange)) → ⊥
    unfolding check_buffer
    buffer_never [] h = ground (arith, h)
    buffer_never (a ∷ b) h = elim (Option-cases (check_event bsearch base cap a)) [
      | inl e ↦ buffer_never b (rw (e, check_buffer) at h)
      | inr (r, e) ↦ event_never a (e ∙ (rw (e, check_buffer) at h))
    ]

    -- Where each event finds the index at rest, its directories with their children in the pool, sorted by
    -- name, check_events() reports no change exactly if the queue ran dry and each event was the end of a
    -- watch; or named a shadow directory; or named, while nothing indexes and the thread gets the lock of
    -- the index, an entry of a watched directory whose path can be assembled that no child of it in the
    -- index has the name of and that is a symlink, special file or mount point; none of them an overflow
    -- and the last two no unmount.
    pub check_events-nochange :
        (bs : List (List Arrival)) (last : Sys)
        → All (All AtRest) bs
        → (check_events bsearch base cap bs last ≡ ok nochange)
          ↔ (All (All Dismissed) bs × IsDry last)
    unfolding check_events
    check_events-nochange [] none _ = (λ _. (tt, tt), λ _. refl)
    check_events-nochange [] (some e) _ = ground arith
    check_events-nochange (b ∷ bs) last (r, rs) = (
      λ h. elim (Option-cases (check_buffer bsearch base cap b)) [
        | inl e ↦
            let (rest, dry) = (check_events-nochange bs last rs).0 (rw (e, check_events) at h) in
            (((check_buffer_iff b r).0 e, rest), dry)
        | inr (x, e) ↦ absurd (buffer_never b (e ∙ ap (λ x. some x) (rw (e, check_events) at h)))
      ],
      λ ((d, ds), dry).
          rw ((check_buffer_iff b r).1 d, check_events)
            ((check_events-nochange bs last rs).1 (ds, dry)),
    )
