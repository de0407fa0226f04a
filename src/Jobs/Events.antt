-- ===== src/Jobs/Events.antt =====
-- src/redline/service/store.py: the events of release jobs, chained by hashes, one chain for each job.
-- The SHA-256 of a text is the parameter `digest`.
pub mod Chain
pub mod Listing
pub mod Tamper
use playbook_redline.Base.{
  ℕ, zero, suc, ◌+◌, String, Bool, true, false, ◌&&◌, ◌||◌, Option, none, some, List, [], ◌∷◌, ◌++◌,
  str_eq, append, take_text, ◌==◌, leb, if◌then◌else◌,
}
use playbook_redline.Base.Int.{pos}
use playbook_redline.Base.Sorting.{sort}
use playbook_redline.Canonical.{Json, int, str, obj, Fields, end, field}
use playbook_redline.Canonical.Hash.{genesis, hash_obj}
use playbook_redline.Verdict.Decide.{strip_prefix}

pub record ReleaseJobEvent : Type 0 where
  pub event_id : String
  pub job_id : String
  pub release_id : String
  pub sequence : ℕ
  pub event_type : String
  pub payload : Fields
  pub created_at : String
  pub previous_event_hash : String
  pub event_hash : String

-- What the hash of an event is taken of.
abbrev pub event_json : ReleaseJobEvent → Json
event_json e = obj (
    field "event_id" (str e.event_id) (
      field "job_id" (str e.job_id) (
        field "release_id" (str e.release_id) (
          field "sequence" (int (pos e.sequence)) (
            field "event_type" (str e.event_type) (
              field "payload" (obj e.payload) (
                field "created_at" (str e.created_at)
                  (field "previous_event_hash" (str e.previous_event_hash) end))))))))

-- `WHERE job_id = ?`.
unfoldable pub of_job : String → List ReleaseJobEvent → List ReleaseJobEvent
of_job id [] = []
of_job id (e ∷ table) = let rest = of_job id table in if str_eq e.job_id id then e ∷ rest else rest

-- `WHERE release_id = ?`.
unfoldable pub of_release : String → List ReleaseJobEvent → List ReleaseJobEvent
of_release id [] = []
of_release id (e ∷ table) =
    let rest = of_release id table in if str_eq e.release_id id then e ∷ rest else rest

-- A row has this `event_id`, a column that is UNIQUE.
unfoldable pub has_event_id : String → List ReleaseJobEvent → Bool
has_event_id id [] = false
has_event_id id (e ∷ table) = str_eq e.event_id id || has_event_id id table

abbrev pub later_of : ReleaseJobEvent → Option ReleaseJobEvent → ReleaseJobEvent
later_of e none = e
later_of e (some other) = if leb e.sequence other.sequence then other else e

-- `ORDER BY sequence DESC LIMIT 1`.
unfoldable pub last_event : List ReleaseJobEvent → Option ReleaseJobEvent
last_event [] = none
last_event (e ∷ events) = some (later_of e (last_event events))

abbrev pub by_sequence : ReleaseJobEvent → ReleaseJobEvent → Bool
by_sequence e f = leb e.sequence f.sequence

abbrev pub next_sequence : Option ReleaseJobEvent → ℕ
next_sequence none = 0
next_sequence (some e) = e.sequence + 1

abbrev pub previous_hash : Option ReleaseJobEvent → String
previous_hash none = genesis
previous_hash (some e) = e.event_hash

module _ (digest : List ℕ → String) where
  abbrev pub new_event_id : String → ℕ → String → String
  new_event_id job_id sequence now = append "evt_" (
      take_text 24 (
        strip_prefix (
          hash_obj digest (
            obj (
              field "job_id" (str job_id)
                (field "sequence" (int (pos sequence)) (field "created_at" (str now) end)))))))

  unfoldable pub sealed : ReleaseJobEvent → ReleaseJobEvent
  sealed e = record e { event_hash = hash_obj digest (event_json e) }

  unfoldable pub new_event :
      String → String → String → String → Fields → Option ReleaseJobEvent → ReleaseJobEvent
  new_event now release_id job_id event_type payload last = sealed (record {
    event_id = new_event_id job_id (next_sequence last) now;
    job_id = job_id;
    release_id = release_id;
    sequence = next_sequence last;
    event_type = event_type;
    payload = payload;
    created_at = now;
    previous_event_hash = previous_hash last;
    event_hash = "";
  })

  -- `append_release_job_event`, the table and the event; `none` is the error of a second event with one
  -- `event_id`, which leaves the table as it was.
  unfoldable pub append_release_job_event :
      String
      → String
      → String
      → String
      → Fields
      → List ReleaseJobEvent
      → Option (List ReleaseJobEvent × ReleaseJobEvent)
  append_release_job_event now release_id job_id event_type payload table =
      let event =
        new_event now release_id job_id event_type payload (last_event (of_job job_id table)) in
      if has_event_id event.event_id table then none else some (table ++ event ∷ [], event)

  -- `_validate_release_job_event_chain`, from a sequence number and the hash before.
  unfoldable pub valid_from : ℕ → String → List ReleaseJobEvent → Bool
  valid_from expected previous [] = true
  valid_from expected previous (e ∷ events) =
      e.sequence == expected
      && str_eq e.previous_event_hash previous
      && str_eq e.event_hash (hash_obj digest (event_json e))
      && valid_from (suc expected) e.event_hash events

  -- `list_release_job_events`; `none` is CanonicalizationError.
  unfoldable pub list_release_job_events :
      String → String → List ReleaseJobEvent → Option (List ReleaseJobEvent)
  list_release_job_events release_id job_id table =
      let events = sort by_sequence (of_release release_id (of_job job_id table)) in
      if valid_from 0 genesis events then some events else none
