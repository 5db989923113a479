-- ===== src/Context/Marker.antt =====
-- engine/sdk/context.py: `_derived_marker_value`, `_marker`, `now`, `random` and `uuid`.
use durable_workflow_engine.Commands.{record_marker}
use durable_workflow_engine.Base.Int.{pos}
use durable_workflow_engine.Context.{
  M, raised, ◌>>=◌, ◌>>◌, guard, take_command_id, non_determinism, pure, entity_seed, serialized,
  expected, invalid_value, is_str, raise, new_commands, has_fingerprint, changed, clone_attribute,
  value_error, recorded_or,
}
use durable_workflow_engine.Json.{
  Json, Fields, as_str, obj, float, end, field, str, float_in_unit_interval, get_null,
}
use durable_workflow_engine.History.{HistoryEvent}
use durable_workflow_engine.Platform.{Datetime, Platform, fingerprint}
use durable_workflow_engine.Base.{
  List, ℕ, ◌*◌, String, none, ◌∷◌, some, ◌+◌, take, if◌then◌else◌, [], ◌%◌, ◌==◌, ◌-◌, is_none,
  ◌&&◌, string_eq, ◌/◌, ◌^◌,
}

-- `int.from_bytes(bytes, "big")`.
unfoldable pub from_bytes : List ℕ → ℕ → ℕ
from_bytes [] acc = acc
from_bytes (b ∷ bs) acc = from_bytes bs (acc * 256 + b)

-- `datetime(2020, 1, 1, tzinfo=UTC)`: 737424 days.
abbrev pub start_of_2020 : Datetime
start_of_2020 = record { microseconds = 737424 * 86400000000; utc_offset = some (pos 0) }

-- `base.replace(tzinfo=UTC)` of a naive time.
abbrev pub aware : Datetime → Datetime
aware d = elim d.utc_offset [ none ↦ record d { utc_offset = some (pos 0) } | some o ↦ d ]

-- `base + timedelta(microseconds=n)`, up to the year 9999.
abbrev pub plus_microseconds : Datetime → ℕ → Datetime
plus_microseconds d n = record d { microseconds = d.microseconds + n }

-- `events[0].attributes`.
abbrev pub first_attributes : List HistoryEvent → Fields
first_attributes [] = end
first_attributes (e ∷ es) = e.attributes

module _ (p : Platform) where
  -- The time from which workflow time counts.
  unfoldable pub marker_base : List ℕ → Json → Datetime
  marker_base digest started_at = elim (as_str started_at) [
    | some t ↦ elim (p.fromisoformat t) [ none ↦ start_of_2020 | some d ↦ d ]
    | none ↦
        plus_microseconds start_of_2020
          (from_bytes (take 4 digest) 0 % (366 * 24 * 60 * 60) * 1000000)
  ]

  unfoldable pub derived_marker_value : String → ℕ → M Json
  derived_marker_value marker_type n c =
      let seed = entity_seed p c.workflow_id marker_type n in
      let digest = p.sha256 seed in
      let started_at = get_null "started_at" (first_attributes c.history.events) in
      if marker_type == "now"
      then pure (str (p.isoformat (plus_microseconds (aware (marker_base digest started_at)) n))) c
      else if marker_type == "random"
      then pure (float (p.float_quotient (from_bytes (take 8 digest) 0 / 2 ^ 11) (2 ^ 53))) c
      else if marker_type == "uuid"
      then pure (str (p.uuid_text (p.uuid5 seed))) c
      else raise (value_error "unknown deterministic marker type") c

  abbrev marker_identity : String → Json
  marker_identity marker_type =
      obj (field "command_type" (str "marker") (field "marker_type" (str marker_type) end))

  -- A marker that the history has.
  unfoldable pub recorded_marker : String → ℕ → String → HistoryEvent → M Json
  recorded_marker marker_type n f s = do
    guard (s.event_type == "MarkerRecorded") (non_determinism n (expected marker_type s.event_type))
    guard (is_str (get_null "marker_type" s.attributes) marker_type && has_fingerprint s f)
        (non_determinism n (changed marker_type))
    clone_attribute p "value" s

  unfoldable pub marker : String → M Json
  marker marker_type = do
    n ← take_command_id
    f ← serialized (fingerprint p (marker_identity marker_type))
    recorded_or n
        (λ c. derived_marker_value marker_type n >>= λ value.
          raise (new_commands (record_marker n marker_type value f ∷ [])))
        (recorded_marker marker_type n f)

  -- `raise NonDeterminismError(self._next_command_id - 1, …)`.
  abbrev pub invalid : {A : Type 0} → String → M A
  invalid what c = (raised (non_determinism (c.next_command_id - 1) (invalid_value what)), c)

  unfoldable pub read_time : Json → M Datetime
  read_time value = elim (as_str value) [
    | none ↦ invalid "now marker is not a timestamp"
    | some t ↦ elim (p.fromisoformat t) [
      | none ↦ invalid "now marker is not a timestamp"
      | some d ↦ if is_none d.utc_offset then invalid "now marker has no timezone" else pure d
    ]
  ]

  unfoldable pub now : M Datetime
  now = marker "now" >>= read_time

  unfoldable pub read_random : Json → M ℕ
  read_random (float b) =
      if float_in_unit_interval b then pure b else invalid "random marker is invalid"
  read_random _ = invalid "random marker is invalid"

  unfoldable pub random : M ℕ
  random = marker "random" >>= read_random

  unfoldable pub read_uuid : Json → M ℕ
  read_uuid value = elim (as_str value) [
    | none ↦ invalid "UUID marker is invalid"
    | some t ↦ elim (p.parse_uuid t) [ none ↦ invalid "UUID marker is invalid" | some u ↦ pure u ]
  ]

  unfoldable pub uuid : M ℕ
  uuid = marker "uuid" >>= read_uuid
