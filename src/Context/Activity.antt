-- ===== src/Context/Activity.antt =====
-- engine/sdk/context.py: `_evaluate_activity` and `gather`.
use durable_workflow_engine.History.{HistoryEvent}
use durable_workflow_engine.Commands.{Command, schedule_activity}
use durable_workflow_engine.Base.Int.{ℤ}
use durable_workflow_engine.Json.{
  Fields, Json, Items, obj, float_is_positive, field, str, end, null, arr,
}
use durable_workflow_engine.Policies.{RetryPolicy, default_policy, to_json}
use durable_workflow_engine.Base.Dict.{lookup, insert}
use durable_workflow_engine.Platform.{Platform, clone_json, fingerprint}
use durable_workflow_engine.Context.{
  M, pure, returned, entity_uuid, raise, blocked, raised, opt_float, new_commands, ◌>>=◌,
  serialized, ◌>>◌, guard, value_error, non_determinism, expected, has_fingerprint, changed,
  recorded_entity, clone_attribute, activity_error, await_end, recorded_or,
}
use durable_workflow_engine.Base.{
  ℕ, Bool, Option, String, List, true, some, none, ◌∷◌, if◌then◌else◌, ◌+◌, ◌++◌, [], false, nat_eq,
  ◌==◌, string_eq,
}

-- An `ActivityCall`. Awaiting one object twice uses one command, so a call has an identity,
-- `object`. `own` is `call.context is self`. Durations are in microseconds.
pub record ActivityCall : Type 0 where
  pub object : ℕ
  pub own : Bool
  pub name : String
  pub args : Items
  pub kwargs : Fields
  pub retry : Option RetryPolicy
  pub schedule_to_start : Option ℤ
  pub start_to_close : Option ℤ
  pub heartbeat_timeout : Option ℤ

-- `if call.command_id is None: call.command_id = self._next_command_id; self._next_command_id += 1`.
unfoldable pub call_command_id : ActivityCall → M ℕ
call_command_id call c = elim (lookup call.object c.assigned) [
  | some n ↦ (returned n, c)
  | none ↦ (
    returned c.next_command_id,
    record c {
      next_command_id = c.next_command_id + 1;
      assigned = insert call.object c.next_command_id c.assigned;
    },
  )
]

module _ (p : Platform) where
  abbrev seconds : Option ℤ → Option ℕ
  seconds none = none
  seconds (some d) = some (p.total_seconds d)

  -- `seconds is not None and seconds <= 0`, negated.
  abbrev is_positive_option : Option ℕ → Bool
  is_positive_option none = true
  is_positive_option (some b) = float_is_positive b

  abbrev policy : ActivityCall → RetryPolicy
  policy call = elim call.retry [ none ↦ default_policy | some r ↦ r ]

  -- `command_input`, after both parts are detached.
  unfoldable pub activity_input : ActivityCall → M Fields
  activity_input call = do
    args ← serialized (clone_json p (arr call.args))
    kwargs ← serialized (clone_json p (obj call.kwargs))
    pure (field "args" args (field "kwargs" kwargs end))

  abbrev activity_identity : ActivityCall → Fields → Json
  activity_identity call input = obj (
      field "command_type" (str "activity") (
        field "activity_type" (str call.name) (
          field "input" (obj input) (
            field "retry_policy" (obj (to_json p (policy call))) (
              field "schedule_to_start_seconds" (opt_float (seconds call.schedule_to_start)) (
                field "start_to_close_seconds" (opt_float (seconds call.start_to_close)) (
                  field "heartbeat_timeout_seconds" (opt_float (seconds call.heartbeat_timeout))
                    end)))))))

  unfoldable pub check_options : ActivityCall → M (Unit {0})
  check_options call = do
    guard (is_positive_option (seconds call.schedule_to_start))
        (value_error "schedule_to_start must be positive")
    guard (is_positive_option (seconds call.start_to_close))
        (value_error "start_to_close must be positive")
    guard (is_positive_option (seconds call.heartbeat_timeout))
        (value_error "heartbeat_timeout must be positive")

  -- The command of a call that the history does not have.
  abbrev activity_command : ActivityCall → Fields → ℕ → ℕ → String → Command
  activity_command call input w n f =
      schedule_activity n (entity_uuid p w "activity" n) call.name input (to_json p (policy call))
        (seconds call.schedule_to_start) (seconds call.start_to_close)
        (seconds call.heartbeat_timeout) f

  -- The result of a call that has ended, or its failure.
  unfoldable pub end_activity : String → HistoryEvent → M Json
  end_activity name t =
      if t.event_type == "ActivityCompleted"
      then clone_attribute p "result" t
      else clone_attribute p "failure" t >>= λ failure. raise (activity_error name failure)

  -- A call whose schedule the history has.
  unfoldable pub resolve_activity : String → ℕ → String → HistoryEvent → M Json
  resolve_activity name n f s = do
    guard (s.event_type == "ActivityScheduled")
        (non_determinism n (expected "activity" s.event_type))
    guard (has_fingerprint s f) (non_determinism n (changed "activity"))
    entity ← recorded_entity n "activity" s
    await_end (λ x. x.activity_terminal) entity (end_activity name)

  unfoldable pub evaluate_activity : ActivityCall → M Json
  unfolding call_command_id activity_input check_options
  evaluate_activity call = do
    guard call.own (value_error "activity call belongs to a different workflow context")
    n ← call_command_id call
    input ← activity_input call
    check_options call
    f ← serialized (fingerprint p (activity_identity call input))
    recorded_or n (λ c. raise (new_commands (activity_command call input c.workflow_id n f ∷ [])))
        (resolve_activity call.name n f)

  -- The loop of `gather`: results in source order, the commands that are missing, and whether a
  -- call waits. Only these two suspensions are caught.
  unfoldable pub gather_loop :
      List ActivityCall → List Json → List Command → Bool → M (List Json × List Command × Bool)
  gather_loop [] results missing waits c = (returned (results, missing, waits), c)
  gather_loop (call ∷ calls) results missing waits c =
      let (outcome, c') = evaluate_activity call c in
      elim outcome [
        | returned v ↦ gather_loop calls (results ++ v ∷ []) missing waits c'
        | raised (new_commands more) ↦
            gather_loop calls (results ++ null ∷ []) (missing ++ more) waits c'
        | raised blocked ↦ gather_loop calls (results ++ null ∷ []) missing true c'
        | raised e ↦ (raised e, c')
      ]

  -- What follows the loop.
  unfoldable pub gathered : List Json × List Command × Bool → M (List Json)
  gathered (results, [], waits) = if waits then raise blocked else pure results
  gathered (results, m ∷ missing, waits) = raise (new_commands (m ∷ missing))

  unfoldable pub gather : List ActivityCall → M (List Json)
  unfolding gather_loop gathered
  gather [] = pure []
  gather (call ∷ calls) = gather_loop (call ∷ calls) [] [] false >>= gathered
