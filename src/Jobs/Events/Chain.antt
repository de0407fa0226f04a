-- ===== src/Jobs/Events/Chain.antt =====
-- src/redline/service/store.py: the events of each job can be listed, whatever jobs are appended to in
-- between.

use playbook_redline.Base.{
  ℕ, suc, ◌+◌, ◌≤◌, String, ◌≡◌, refl, sym, ap, ◌∙◌, ◌⊎◌, inl, inr, true, Option, none, some, List,
  [], ◌∷◌, ◌++◌, if-true, arith, ==_iff, leb,
}
use playbook_redline.Base.Sorting.{insert, sort}
use playbook_redline.Jobs.Events.{ReleaseJobEvent, later_of, last_event, by_sequence, valid_from}

-- The sequence number and the hash that follow a chain.
unfoldable pub end_of : ℕ → String → List ReleaseJobEvent → ℕ × String
end_of k h [] = (k, h)
end_of k h (e ∷ events) = end_of (suc k) e.event_hash events

module _ (digest : List ℕ → String) where
  -- What a valid chain says of its first event and of the rest.
  valid_parts :
      (k : ℕ) (h : String) (e : ReleaseJobEvent) (events : List ReleaseJobEvent)
      → valid_from digest k h (e ∷ events) ≡ true
      → (e.sequence ≡ k) × (valid_from digest (suc k) e.event_hash events ≡ true)
  unfolding valid_from
  valid_parts k h e events v = ((==_iff e.sequence k).0 (ground arith), ground arith)

  pub valid_snoc :
      (k : ℕ) (h : String) (events : List ReleaseJobEvent) (e : ReleaseJobEvent)
      → valid_from digest k h events ≡ true
      → valid_from digest (end_of k h events).0 (end_of k h events).1 (e ∷ []) ≡ true
      → valid_from digest k h (events ++ e ∷ []) ≡ true
  unfolding valid_from end_of
  valid_snoc k h [] e v w = w
  valid_snoc k h (x ∷ events) e v w =
      let rest = valid_snoc (suc k) x.event_hash events e (valid_parts k h x events v).1 w in
      ground (arith, rest)

  -- A chain of events is empty, or its last event is the one that comes before its end.
  unfoldable pub Ends : ℕ → String → List ReleaseJobEvent → Type 0
  Ends k h events =
      ((events ≡ []) × (last_event events ≡ none))
      ⊎ ((l : ReleaseJobEvent) × (last_event events ≡ some l)
          × (l.sequence + 1 ≡ (end_of k h events).0)
          × (l.event_hash ≡ (end_of k h events).1)
          × (k ≤ l.sequence))

  pub valid-Ends :
      (k : ℕ) (h : String) (events : List ReleaseJobEvent)
      → valid_from digest k h events ≡ true
      → Ends k h events
  unfolding Ends last_event end_of
  valid-Ends k h [] v = inl ((refl, refl))
  valid-Ends k h (e ∷ events) v =
      let (s, w) = valid_parts k h e events v in
      elim (valid-Ends (suc k) e.event_hash events w) [
        | inl (empty, q) ↦
            let count : (end_of (suc k) e.event_hash events).0 ≡ suc k =
              ap (λ (xs : List ReleaseJobEvent). (end_of (suc k) e.event_hash xs).0) empty in
            inr (
              (
                e,
                ap (λ (o : Option ReleaseJobEvent). some (later_of e o)) q,
                omega (arith, s, count),
                sym (ap (λ (xs : List ReleaseJobEvent). (end_of (suc k) e.event_hash xs).1) empty),
                omega (arith, s),
              ))
        | inr (l, q, n, p, b) ↦
            let before : leb e.sequence l.sequence ≡ true = ground (arith, s, b) in
            inr (
              (
                l,
                ap (λ (o : Option ReleaseJobEvent). some (later_of e o)) q
                    ∙ ap some (if-true (leb e.sequence l.sequence) l e before),
                n,
                p,
                omega (arith, b),
              ))
      ]

  pub sort_valid :
      (k : ℕ) (h : String) (events : List ReleaseJobEvent)
      → valid_from digest k h events ≡ true
      → sort by_sequence events ≡ events
  unfolding sort insert
  sort_valid k h [] v = refl
  sort_valid k h (e ∷ []) v = refl
  sort_valid k h (e ∷ f ∷ events) v =
      let (s, w) = valid_parts k h e (f ∷ events) v in
      let (t, u) = valid_parts (suc k) e.event_hash f events w in
      let before : by_sequence e f ≡ true = ground (arith, s, t) in
      ap (insert by_sequence e) (sort_valid (suc k) e.event_hash (f ∷ events) w)
      ∙ if-true (by_sequence e f) _ _ before
