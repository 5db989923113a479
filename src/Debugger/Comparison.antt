-- ===== src/Debugger/Comparison.antt =====
-- engine/runtime/replay_debugger.py: `compare_command_histories`.
use mathlib.Core.Path.{ap₂}
use text.Mathlib.TextEquality.{eq_iff}
use Prim.Native.Nat.{min}
use durable_workflow_engine.Json.{as_str, get_null}
use durable_workflow_engine.History.{HistoryEvent, schedule_event_types}
use durable_workflow_engine.Base.{
  ℕ, Bool, String, Eq, List, Option, ◌≡◌, ◌==◌, keep, none, true, some, false, ◌&&◌, contains, ◌∷◌,
  ◌↔◌, if◌then◌else◌, length, ap, string_eq, not, eq_of_some, nat_eq, ◌+◌, get_elem?, refl, [],
  arith, map, suc, Bool-cases, inl, inr, take, ◌≢◌, ◌⊎◌, Option-cases,
}

pub record TraceDivergence : Type 0 where
  pub command_index : ℕ
  pub reason : String
  pub left_seq : Option ℕ
  pub left_event_type : Option String
  pub left_fingerprint : Option String
  pub right_seq : Option ℕ
  pub right_event_type : Option String
  pub right_fingerprint : Option String

pub record HistoryComparison : Type 0 where
  pub compatible : Bool
  pub matched_commands : ℕ
  pub left_commands : ℕ
  pub right_commands : ℕ
  pub divergence : Option TraceDivergence

pub record Signature : Type 0 where
  pub type : String
  pub command : Option ℕ
  pub fingerprint : Option String

unfoldable pub command_signature : HistoryEvent → Signature
command_signature e = record {
  type = e.event_type;
  command = e.command_id;
  fingerprint = as_str (get_null "fingerprint" e.attributes);
}

abbrev eq_option {ℓ} : {A : Type ℓ} ⦃e : Eq A⦄ → Option A → Option A → Bool
eq_option none none = true
eq_option (some a) (some b) = a == b
eq_option _ _ = false

abbrev eq_signature : Signature → Signature → Bool
eq_signature s t =
    s.type == t.type && (eq_option s.command t.command && eq_option s.fingerprint t.fingerprint)

abbrev pub commands_of : List HistoryEvent → List HistoryEvent
commands_of = keep (λ e. contains schedule_event_types e.event_type)

-- The first place at which the signatures differ, with the two events.
unfoldable pub first_difference :
    ℕ → List HistoryEvent → List HistoryEvent → Option (ℕ × HistoryEvent × HistoryEvent)
first_difference n [] rs = none
first_difference n (l ∷ ls) [] = none
first_difference n (l ∷ ls) (r ∷ rs) =
    if not (eq_signature (command_signature l) (command_signature r))
    then some (n, l, r)
    else first_difference (n + 1) ls rs

abbrev seq_of : Option HistoryEvent → Option ℕ
seq_of none = none
seq_of (some e) = some e.seq

abbrev type_of : Option HistoryEvent → Option String
type_of none = none
type_of (some e) = some e.event_type

abbrev fingerprint_of : Option HistoryEvent → Option String
fingerprint_of none = none
fingerprint_of (some e) = (command_signature e).fingerprint

abbrev diverges_at : ℕ → String → Option HistoryEvent → Option HistoryEvent → TraceDivergence
diverges_at n reason l r = record {
  command_index = n;
  reason = reason;
  left_seq = seq_of l;
  left_event_type = type_of l;
  left_fingerprint = fingerprint_of l;
  right_seq = seq_of r;
  right_event_type = type_of r;
  right_fingerprint = fingerprint_of r;
}

-- The comparison of two command streams.
unfoldable pub compare_streams : List HistoryEvent → List HistoryEvent → HistoryComparison
compare_streams left right = elim (first_difference 0 left right) [
  | some (n, l, r) ↦ record {
    compatible = false;
    matched_commands = n;
    left_commands = length left;
    right_commands = length right;
    divergence =
        some (diverges_at n "command type, ordinal, or fingerprint differs" (some l) (some r));
  }
  | none ↦
      let common = min (length left) (length right) in
      if not (length left == length right)
      then record {
        compatible = false;
        matched_commands = common;
        left_commands = length left;
        right_commands = length right;
        divergence = some (
            diverges_at common "one command stream ended before the other" (get_elem? left common)
              (get_elem? right common));
      }
      else record {
        compatible = true;
        matched_commands = common;
        left_commands = length left;
        right_commands = length right;
        divergence = none;
      }
]

unfoldable pub compare_command_histories : List HistoryEvent → List HistoryEvent → HistoryComparison
compare_command_histories left right = compare_streams (commands_of left) (commands_of right)

eq_option_iff {ℓ} : {A : Type ℓ} ⦃e : Eq A⦄ (a b : Option A) → (eq_option a b ≡ true) ↔ (a ≡ b)
eq_option_iff none none = (λ h. refl, λ h. refl)
eq_option_iff none (some b) = (λ h. cc, λ h. cc)
eq_option_iff (some a) none = (λ h. cc, λ h. cc)
eq_option_iff ⦃e⦄ (some a) (some b) =
    (λ h. ap some ((e.same_iff a b).0 h), λ h. (e.same_iff a b).1 (eq_of_some h))

eq_signature_iff : (s t : Signature) → (eq_signature s t ≡ true) ↔ (s ≡ t)
eq_signature_iff s t = ground (
  arith,
  eq_iff s.type t.type,
  eq_option_iff s.command t.command,
  eq_option_iff s.fingerprint t.fingerprint,
)

abbrev pub signatures : List HistoryEvent → List Signature
signatures = map command_signature

same_signatures :
    (n : ℕ) (ls rs : List HistoryEvent)
    → first_difference n ls rs ≡ none
    → length ls ≡ length rs
    → signatures ls ≡ signatures rs
unfolding first_difference
same_signatures n [] [] h k = refl
same_signatures n [] (r ∷ rs) h k = absurd (omega arith)
same_signatures n (l ∷ ls) [] h k = absurd (omega arith)
same_signatures n (l ∷ ls) (r ∷ rs) h k =
    elim (Bool-cases (eq_signature (command_signature l) (command_signature r))) [
      | inl same ↦
          let head = (eq_signature_iff (command_signature l) (command_signature r)).0 same in
          let tail = same_signatures (n + 1) ls rs (rw same at h) (omega arith) in cc
      | inr other ↦ let found = rw other at h in cc
    ]

no_difference :
    (n : ℕ) (ls rs : List HistoryEvent)
    → signatures ls ≡ signatures rs
    → (first_difference n ls rs ≡ none) × (length ls ≡ length rs)
unfolding first_difference
no_difference n [] [] h = (refl, refl)
no_difference n [] (r ∷ rs) h = cc
no_difference n (l ∷ ls) [] h = cc
no_difference n (l ∷ ls) (r ∷ rs) h =
    let head : command_signature l ≡ command_signature r = cc in
    let tail : signatures ls ≡ signatures rs = cc in
    let same = (eq_signature_iff (command_signature l) (command_signature r)).1 head in
    let (none_left, lengths) = no_difference (n + 1) ls rs tail in
    (rw same none_left, ap suc lengths)

compatible_streams :
    (ls rs : List HistoryEvent)
    → (compare_streams ls rs).compatible ≡ true
    → (first_difference 0 ls rs ≡ none) × (length ls ≡ length rs)
unfolding compare_streams
compatible_streams ls rs h = ground arith

-- Two histories are reported as compatible exactly when their commands have the same signatures
-- (event type, command and fingerprint) in the same order.
pub compare_command_histories-compatible :
    (left right : List HistoryEvent)
    → ((compare_command_histories left right).compatible ≡ true)
      ↔ (signatures (commands_of left) ≡ signatures (commands_of right))
unfolding compare_command_histories compare_streams
compare_command_histories-compatible left right = (forth, back)
  where
    forth :
        (compare_command_histories left right).compatible ≡ true
        → signatures (commands_of left) ≡ signatures (commands_of right)
    forth h =
        let (nothing, lengths) = compatible_streams (commands_of left) (commands_of right) h in
        same_signatures 0 (commands_of left) (commands_of right) nothing lengths

    back :
        signatures (commands_of left) ≡ signatures (commands_of right)
        → (compare_command_histories left right).compatible ≡ true
    back h =
        let (nothing, lengths) = no_difference 0 (commands_of left) (commands_of right) h in
        ground arith

-- `m` is where the signatures of the streams first differ.
pub record IsFirstDifference (ls rs : List HistoryEvent) (m : ℕ) : Type 0 where
  pub common : take m (signatures ls) ≡ take m (signatures rs)
  pub differ : get_elem? (signatures ls) m ≢ get_elem? (signatures rs) m

difference-IsFirst :
    (n : ℕ) (ls rs : List HistoryEvent) (m : ℕ) (l r : HistoryEvent)
    → first_difference n ls rs ≡ some (m, l, r)
    → (k : ℕ) × (m ≡ n + k) × IsFirstDifference ls rs k
unfolding first_difference
difference-IsFirst n [] rs m l r h = cc
difference-IsFirst n (a ∷ ls) [] m l r h = cc
difference-IsFirst n (a ∷ ls) (b ∷ rs) m l r h =
    elim (Bool-cases (eq_signature (command_signature a) (command_signature b))) [
      | inl same ↦
          let head = (eq_signature_iff (command_signature a) (command_signature b)).0 same in
          let (k, place, first) = difference-IsFirst (n + 1) ls rs m l r (rw same at h) in
          (
            suc k,
            omega (arith, place),
            record { common = ap₂ ◌∷◌ head first.common; differ = first.differ },
          )
      | inr other ↦ (
        0,
        ground arith,
        record {
          common = refl;
          differ = λ e.
              let same =
                (eq_signature_iff (command_signature a) (command_signature b)).1 (eq_of_some e) in
              cc;
        },
      )
    ]

ended_first :
    (n : ℕ) (ls rs : List HistoryEvent)
    → first_difference n ls rs ≡ none
    → length ls ≢ length rs
    → IsFirstDifference ls rs (min (length ls) (length rs))
unfolding first_difference
ended_first n [] [] h k = absurd (k refl)
ended_first n [] (r ∷ rs) h k =
    let none_left : min 0 (suc (length rs)) ≡ 0 = omega arith in
    rw none_left (record { common = refl; differ = λ e. cc })
ended_first n (l ∷ ls) [] h k =
    let none_left : min (suc (length ls)) 0 ≡ 0 = omega arith in
    rw none_left (record { common = refl; differ = λ e. cc })
ended_first n (l ∷ ls) (r ∷ rs) h k =
    let one_more : min (suc (length ls)) (suc (length rs)) ≡ suc (min (length ls) (length rs)) =
      omega arith in
    elim (Bool-cases (eq_signature (command_signature l) (command_signature r))) [
      | inl same ↦
          let head = (eq_signature_iff (command_signature l) (command_signature r)).0 same in
          let first = ended_first (n + 1) ls rs (rw same at h) (λ e. k (ap suc e)) in
          rw one_more (record { common = ap₂ ◌∷◌ head first.common; differ = first.differ })
      | inr other ↦ let found = rw other at h in cc
    ]

abbrev StreamCases : List HistoryEvent → List HistoryEvent → Type 0
StreamCases ls rs =
    ((m : ℕ) × (l : HistoryEvent) × (r : HistoryEvent) × (first_difference 0 ls rs ≡ some (m, l, r))
      × ((compare_streams ls rs).matched_commands ≡ m))
    ⊎ ((first_difference 0 ls rs ≡ none)
        × (length ls ≢ length rs)
        × ((compare_streams ls rs).matched_commands ≡ min (length ls) (length rs)))

stream_cases :
    (ls rs : List HistoryEvent) → (compare_streams ls rs).compatible ≡ false → StreamCases ls rs
unfolding compare_streams
stream_cases ls rs h = elim (Option-cases (first_difference 0 ls rs)) [
  | inl e ↦ inr (e, (λ same. ground arith), ground arith)
  | inr ((m, l, r), e) ↦ inl (m, l, r, e, ground arith)
]

-- Of two histories that are not compatible, `matched_commands` counts the leading commands that agree:
-- the next command of one is missing in the other, or has another signature.
pub compare_command_histories-matched :
    (left right : List HistoryEvent)
    → (compare_command_histories left right).compatible ≡ false
    → IsFirstDifference
        (commands_of left)
        (commands_of right)
        (compare_command_histories left right).matched_commands
unfolding compare_command_histories
compare_command_histories-matched left right h =
    elim (stream_cases (commands_of left) (commands_of right) h) [
      | inl (m, l, r, e, matched) ↦
          let (k, place, first) =
            difference-IsFirst 0 (commands_of left) (commands_of right) m l r e in
          let here : (compare_streams (commands_of left) (commands_of right)).matched_commands ≡ k =
            omega (arith, matched, place) in
          rw here first
      | inr (e, lengths, matched) ↦
          rw matched (ended_first 0 (commands_of left) (commands_of right) e lengths)
    ]
