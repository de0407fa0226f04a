-- ===== src/Jobs/Events/Listing.antt =====
-- src/redline/service/store.py: the events of each job can be listed, whatever jobs are appended to in
-- between.
use playbook_redline.Base.{
  ℕ, String, ◌≡◌, refl, sym, ap, ◌∙◌, inl, inr, subst, Bool, true, false, ◌&&◌, none, some,
  some-inj, List, [], ◌∷◌, ◌++◌, str_eq, str_eq_refl, eq_iff, Bool-cases, if-true, if-false, arith,
  ==_iff,
}
use playbook_redline.Base.Sorting.{sort}
use playbook_redline.Canonical.{Fields}
use playbook_redline.Canonical.Hash.{genesis}
use playbook_redline.Jobs.Events.{
  ReleaseJobEvent, of_job, of_release, last_event, by_sequence, next_sequence, previous_hash,
  sealed, new_event, append_release_job_event, has_event_id, valid_from, list_release_job_events,
}
use playbook_redline.Jobs.Events.Chain.{end_of, Ends, valid_snoc, valid-Ends, sort_valid}

of_job-kept :
    (id : String) (table : List ReleaseJobEvent) (e : ReleaseJobEvent)
    → str_eq e.job_id id ≡ true
    → of_job id (table ++ e ∷ []) ≡ of_job id table ++ e ∷ []
unfolding of_job
of_job-kept id [] e q = if-true (str_eq e.job_id id) _ _ q
of_job-kept id (x ∷ table) e q =
    let rest = of_job-kept id table e q in
    elim (Bool-cases (str_eq x.job_id id)) [
      | inl y ↦ rw y (ap (λ (r : List ReleaseJobEvent). x ∷ r) rest)
      | inr n ↦ rw n rest
    ]

of_job-skipped :
    (id : String) (table : List ReleaseJobEvent) (e : ReleaseJobEvent)
    → str_eq e.job_id id ≡ false
    → of_job id (table ++ e ∷ []) ≡ of_job id table
unfolding of_job
of_job-skipped id [] e q = if-false (str_eq e.job_id id) _ _ q
of_job-skipped id (x ∷ table) e q =
    let rest = of_job-skipped id table e q in
    elim (Bool-cases (str_eq x.job_id id)) [
      | inl y ↦ rw y (ap (λ (r : List ReleaseJobEvent). x ∷ r) rest)
      | inr n ↦ rw n rest
    ]

-- Every event is for the release.
unfoldable all_for : String → List ReleaseJobEvent → Bool
all_for id [] = true
all_for id (e ∷ table) = str_eq e.release_id id && all_for id table

of_release-all_for :
    (id : String) (table : List ReleaseJobEvent)
    → all_for id table ≡ true
    → of_release id table ≡ table
unfolding of_release all_for
of_release-all_for id [] h = refl
of_release-all_for id (x ∷ table) h =
    if-true (str_eq x.release_id id) _ _ (ground arith)
    ∙ ap (λ (r : List ReleaseJobEvent). x ∷ r) (of_release-all_for id table (ground arith))

all_for_snoc :
    (id : String) (table : List ReleaseJobEvent) (e : ReleaseJobEvent)
    → all_for id table ≡ true
    → str_eq e.release_id id ≡ true
    → all_for id (table ++ e ∷ []) ≡ true
unfolding all_for
all_for_snoc id [] e h q = ground (arith, q)
all_for_snoc id (x ∷ table) e h q =
    let rest = all_for_snoc id table e (ground arith) q in ground (arith, rest)

and_true : (a b c : Bool) → a ≡ true → b ≡ true → c ≡ true → (a && b && c && true) ≡ true
and_true a b c p q r = ground arith

module _ (digest : List ℕ → String) where
  next_sequence_lem :
      (events : List ReleaseJobEvent)
      → valid_from digest 0 genesis events ≡ true
      → (next_sequence (last_event events) ≡ (end_of 0 genesis events).0)
        × (previous_hash (last_event events) ≡ (end_of 0 genesis events).1)
  unfolding Ends end_of
  next_sequence_lem events v = elim (valid-Ends digest 0 genesis events v) [
    | inl (empty, q) ↦ (
      ap next_sequence q ∙ sym (ap (λ (xs : List ReleaseJobEvent). (end_of 0 genesis xs).0) empty),
      ap previous_hash q ∙ sym (ap (λ (xs : List ReleaseJobEvent). (end_of 0 genesis xs).1) empty),
    )
    | inr (l, q, n, p, b) ↦ (ap next_sequence q ∙ n, ap previous_hash q ∙ p)
  ]

  new_event-valid :
      (now release_id job_id event_type : String) (payload : Fields) (events : List ReleaseJobEvent)
      → valid_from digest 0 genesis events ≡ true
      → valid_from digest 0 genesis (
          events
          ++ new_event digest now release_id job_id event_type payload (last_event events) ∷ [])
        ≡ true
  unfolding valid_from new_event sealed
  new_event-valid now release_id job_id event_type payload events v =
      let (n, p) = next_sequence_lem events v in
      valid_snoc digest 0 genesis events _ v
        (and_true _ _ _ ((==_iff _ _).1 n) ((eq_iff _ _).1 p) (str_eq_refl _))

module _ (digest : List ℕ → String) (release_of : String → String) where
  -- Tables grown by successful appends alone, the events of a job all for one release.
  pub data Appended : List ReleaseJobEvent → Type 0 where
    no_events : Appended []
    one_more :
        {table after : List ReleaseJobEvent} {event : ReleaseJobEvent}
        → Appended table
        → (now job_id event_type : String) (payload : Fields)
        → append_release_job_event digest now (release_of job_id) job_id event_type payload table
          ≡ some (after, event)
        → Appended after

  -- The table after an append.
  unfoldable grown_by :
      String → String → String → Fields → List ReleaseJobEvent → List ReleaseJobEvent
  grown_by now job_id event_type payload table =
      table
      ++ new_event digest now (release_of job_id) job_id event_type payload
          (last_event (of_job job_id table))
        ∷ []

  append_release_job_event-grown_by :
      (now job_id event_type : String) (payload : Fields)
      → (table after : List ReleaseJobEvent) (event : ReleaseJobEvent)
      → append_release_job_event digest now (release_of job_id) job_id event_type payload table
        ≡ some (after, event)
      → grown_by now job_id event_type payload table ≡ after
  unfolding append_release_job_event grown_by
  append_release_job_event-grown_by now job_id event_type payload table after event q =
      let e =
        new_event digest now (release_of job_id) job_id event_type payload
          (last_event (of_job job_id table)) in
      elim (Bool-cases (has_event_id e.event_id table)) [
        | inl y ↦
            let failed : append_release_job_event digest now (release_of job_id) job_id event_type
                  payload table
                ≡ none =
              if-true (has_event_id e.event_id table) none (some (table ++ e ∷ [], e)) y in
            let clash = sym failed ∙ q in cc
        | inr n ↦
            let done : append_release_job_event digest now (release_of job_id) job_id event_type
                  payload table
                ≡ some (table ++ e ∷ [], e) =
              if-false (has_event_id e.event_id table) none (some (table ++ e ∷ [], e)) n in
            ap (λ (r : List ReleaseJobEvent × ReleaseJobEvent). r.0) (some-inj _ _ (sym done ∙ q))
      ]

  -- The events of a job are a chain, all for the release of the job.
  unfoldable Chained : String → List ReleaseJobEvent → Type 0
  Chained id table =
      (valid_from digest 0 genesis (of_job id table) ≡ true)
      × (all_for (release_of id) (of_job id table) ≡ true)

  append-Chained_same :
      (now id event_type : String) (payload : Fields) (table : List ReleaseJobEvent)
      → Chained id table
      → Chained id (grown_by now id event_type payload table)
  unfolding Chained grown_by new_event sealed
  append-Chained_same now id event_type payload table (v, f) =
      let kept =
        of_job-kept id table
          (new_event digest now (release_of id) id event_type payload
            (last_event (of_job id table)))
          (str_eq_refl id) in
      (
        ap (valid_from digest 0 genesis) kept
            ∙ new_event-valid digest now (release_of id) id event_type payload (of_job id table) v,
        ap (all_for (release_of id)) kept
            ∙ all_for_snoc (release_of id) (of_job id table) _ f (str_eq_refl (release_of id)),
      )

  append-Chained :
      (id now job_id event_type : String) (payload : Fields) (table : List ReleaseJobEvent)
      → Chained id table
      → Chained id (grown_by now job_id event_type payload table)
  unfolding Chained grown_by new_event sealed
  append-Chained id now job_id event_type payload table c = elim (Bool-cases (str_eq job_id id)) [
    | inl y ↦
        subst (λ (j : String). Chained id (grown_by now j event_type payload table))
          (sym ((eq_iff job_id id).0 y)) (append-Chained_same now id event_type payload table c)
    | inr n ↦
        let skipped =
          of_job-skipped id table
            (new_event digest now (release_of job_id) job_id event_type payload
              (last_event (of_job job_id table)))
            n in
        (ap (valid_from digest 0 genesis) skipped ∙ c.0, ap (all_for (release_of id)) skipped ∙ c.1)
  ]

  Appended-Chained :
      {table : List ReleaseJobEvent} → Appended table → (id : String) → Chained id table
  unfolding Chained valid_from of_job all_for
  Appended-Chained no_events id = (refl, refl)
  Appended-Chained (one_more {table} {after} {event} before now job_id event_type payload q) id =
      subst (Chained id)
        (append_release_job_event-grown_by now job_id event_type payload table after event q)
        (append-Chained id now job_id event_type payload table (Appended-Chained before id))

  -- In a table grown from the empty one by successful appends alone, whatever jobs they are for and
  -- whatever they say, where the events of one job are all for one release, listing the events of any job for its
  -- release validates: it returns all events of the job, in the order in which they were appended.
  pub list_release_job_events_lem :
      {table : List ReleaseJobEvent}
      → Appended table
      → (id : String)
      → list_release_job_events digest (release_of id) id table ≡ some (of_job id table)
  unfolding list_release_job_events Chained
  list_release_job_events_lem {table} grown id =
      let (v, f) = Appended-Chained grown id in
      let listed : sort by_sequence (of_release (release_of id) (of_job id table))
          ≡ of_job id table =
        ap (sort by_sequence) (of_release-all_for (release_of id) (of_job id table) f)
        ∙ sort_valid digest 0 genesis (of_job id table) v in
      rw listed (if-true (valid_from digest 0 genesis (of_job id table)) _ _ v)
