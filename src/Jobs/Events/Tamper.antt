-- ===== src/Jobs/Events/Tamper.antt =====
-- src/redline/service/store.py: the last hash of the events of a job commits to all of them.
use playbook_redline.Base.{
  ℕ, suc, String, ◌≡◌, ◌≢◌, refl, sym, ap, ◌∙◌, ◌⊎◌, subst, true, some, List, [], ◌∷◌, eq_iff,
  arith, if-some,
}
use playbook_redline.Base.Sorting.{sort}
use playbook_redline.Canonical.{Json, obj}
use playbook_redline.Canonical.Dump.{normalize, normalize_fields, insert_field}
use playbook_redline.Canonical.Dict.{get, text_of}
use playbook_redline.Canonical.Hash.{genesis, hash_obj, Collision}
use playbook_redline.HashChain.{Entry, bodies, end_hash, Linked, end_hash-inj}
use playbook_redline.Jobs.Events.{
  ReleaseJobEvent, event_json, of_job, of_release, by_sequence, valid_from, list_release_job_events,
}

abbrev previous_in : Json → String
previous_in (obj fs) = text_of (get fs "previous_event_hash")
previous_in _ = ""

previous_in-event_json :
    (e : ReleaseJobEvent) → previous_in (normalize (event_json e)) ≡ e.previous_event_hash
unfolding normalize normalize_fields insert_field
previous_in-event_json e = refl

pub previous-event_json :
    (e f : ReleaseJobEvent)
    → normalize (event_json e) ≡ normalize (event_json f)
    → e.previous_event_hash ≡ f.previous_event_hash
previous-event_json e f h =
    sym (previous_in-event_json e) ∙ ap previous_in h ∙ previous_in-event_json f

-- The events of a job as a chain of hashes.
abbrev pub event_entry : Entry ReleaseJobEvent
event_entry = record {
  previous_of = λ e. e.previous_event_hash;
  hash_of = λ e. e.event_hash;
  body = event_json;
  previous_of_body = previous-event_json;
}

module _ (digest : List ℕ → String) where
  valid_from-Linked :
      (k : ℕ) (h : String) (events : List ReleaseJobEvent)
      → valid_from digest k h events ≡ true
      → Linked digest event_entry h events
  unfolding valid_from
  valid_from-Linked k h [] v = tt
  valid_from-Linked k h (e ∷ events) v =
      let rest = valid_from-Linked (suc k) e.event_hash events (ground arith) in
      (
        (eq_iff e.previous_event_hash h).0 (ground arith),
        (eq_iff e.event_hash (hash_obj digest (event_json e))).0 (ground arith),
        rest,
      )

  listed-Linked :
      (release_id job_id : String) (table events : List ReleaseJobEvent)
      → list_release_job_events digest release_id job_id table ≡ some events
      → Linked digest event_entry genesis events
  unfolding list_release_job_events
  listed-Linked release_id job_id table events e =
      let found = sort by_sequence (of_release release_id (of_job job_id table)) in
      let (v, q) = if-some (valid_from digest 0 genesis found) found events e in
      subst (Linked digest event_entry genesis) q (valid_from-Linked 0 genesis found v)

  -- If no hash is `sha256:genesis`, two listings of job events, of any releases, jobs and tables,
  -- whose last events have the same hash hold the same events, up to `normalize` of the payloads, or
  -- a collision of SHA-256 is in hand.
  pub list_release_job_events-inj :
      ((j : Json) → hash_obj digest j ≢ genesis)
      → (release_id job_id other_release other_job : String)
        (table changed events others : List ReleaseJobEvent)
      → list_release_job_events digest release_id job_id table ≡ some events
      → list_release_job_events digest other_release other_job changed ≡ some others
      → end_hash event_entry genesis events ≡ end_hash event_entry genesis others
      → (bodies event_entry events ≡ bodies event_entry others) ⊎ Collision digest
  list_release_job_events-inj not_genesis release_id job_id other_release other_job table changed
        events others e f h =
      end_hash-inj digest event_entry not_genesis events others
        (listed-Linked release_id job_id table events e)
        (listed-Linked other_release other_job changed others f) h
