-- ===== src/Platform.antt =====
-- What the engine uses of Python's standard library and of IEEE arithmetic, as a parameter: json,
-- hashlib, uuid and datetime. engine/runtime/serialization.py stands on it.
use durable_workflow_engine.Base.Int.{ℤ}
use durable_workflow_engine.Json.{Json}
use durable_workflow_engine.Base.{ℕ, Option, String, List, none, some}

-- A reading of the calendar in microseconds from 0001-01-01, and the offset to UTC in
-- microseconds; a naive time has no offset.
pub record Datetime : Type 0 where
  pub microseconds : ℕ
  pub utc_offset : Option ℤ

pub record Platform : Type 0 where
  -- `json.dumps` with the arguments of `canonical_json`; `none` for TypeError and ValueError.
  pub dumps : Json → Option String
  -- `json.loads` of a text that `json.dumps` has given.
  pub loads : String → Json
  -- `hashlib.sha256(text.encode()).digest()`, and `.hex()` of a digest.
  pub sha256 : String → List ℕ
  pub hex : List ℕ → String
  -- `uuid5(ENTITY_NAMESPACE, text)`, `str` of a UUID, and `UUID(text)` with `none` for ValueError.
  pub uuid5 : String → ℕ
  pub uuid_text : ℕ → String
  pub parse_uuid : String → Option ℕ
  -- `str` of an integer that is not negative.
  pub decimal : ℕ → String
  -- `timedelta.total_seconds()` of a number of microseconds.
  pub total_seconds : ℤ → ℕ
  -- `a / float(b)`.
  pub float_quotient : ℕ → ℕ → ℕ
  -- `datetime.fromisoformat`, with `none` for ValueError, and `isoformat`.
  pub fromisoformat : String → Option Datetime
  pub isoformat : Datetime → String

pub data Serialized {ℓ} (A : Type ℓ) : Type ℓ where
  value_of : A → Serialized A
  serialization_error : Serialized A

module _ (p : Platform) where
  unfoldable pub canonical_json : Json → Serialized String
  canonical_json v = elim (p.dumps v) [ none ↦ serialization_error | some t ↦ value_of t ]

  unfoldable pub fingerprint : Json → Serialized String
  unfolding canonical_json
  fingerprint v = elim (canonical_json v) [
    | value_of t ↦ value_of (p.hex (p.sha256 t))
    | serialization_error ↦ serialization_error
  ]

  unfoldable pub clone_json : Json → Serialized Json
  unfolding canonical_json
  clone_json v = elim (canonical_json v) [
    | value_of t ↦ value_of (p.loads t)
    | serialization_error ↦ serialization_error
  ]
