-- ===== src/Sequence/Appends.antt =====
-- engine/persistence/transitions.py: the commands of a workflow task: the numbers of the events.
use mathlib.Core.Bool.{false≢true}
use Prim.Native.String.{◌++◌ as ◌++ˢ◌}
use durable_workflow_engine.Sequence.Origins.{require_definition-IsQuiet}
use durable_workflow_engine.Base.Dict.{lookup}
use durable_workflow_engine.Sequence.Rules.{append-then, quiet-then, insert-then}
use durable_workflow_engine.Sequence.Starts.{
  Born, born-IsSequenced, born-Grows, started, lookup-old, insert_workflow-Triple,
}
use durable_workflow_engine.Transitions.Start.{insert_workflow, new_execution}
use durable_workflow_engine.Commands.{
  Command, schedule_activity, schedule_timer, record_marker, start_child_workflow,
  resolve_workflow_update, continue_as_new,
}
use durable_workflow_engine.Json.{Fields, Json}
use durable_workflow_engine.Store.{Execution}
use durable_workflow_engine.Transitions.Commit.{append_command, has_continuation, append_commands}
use durable_workflow_engine.Sequence.Triples.{
  IsQuiet, Triple, encoded-IsQuiet, insert_task-IsQuiet, bind-Triple, quiet-Triple, pure-IsQuiet,
  require-IsQuiet, update_updates-IsQuiet,
}
use durable_workflow_engine.Sequence.Stages.{
  At, Ready, append_event-Triple, insert_event-Triple, post-Triple, pre-Triple, Base, next-Ready,
  update_execution-Triple,
}
use durable_workflow_engine.Sequence.{View, count, Or, Grows-trans, count-added_other}
use durable_workflow_engine.Store.Tx.{
  Session, Void, insert_event, Tx, event, ◌>>=◌, update_execution, ◌>>◌, pure,
}
use durable_workflow_engine.Transitions.Append.{
  pending_update, append_activity_command, append_timer_command, append_marker_command,
  append_update_resolution, append_child_workflow_command, or_else,
}
use durable_workflow_engine.Base.{
  ℕ, String, ◌≡◌, arith, Option, Bool, ◌+◌, ◌∷◌, [], ◌≢◌, false, some, none, sym, refl, ◌∙◌, nat_eq,
  List, ◌||◌, true,
}

-- The last event of `w` has the number before `n`, and `next_seq` is to be set to `n`.
pub record Done (X : ℕ → Type 0) (u : View) (w n : ℕ) (v : View) : Type 0 where
  pub last : ℕ
  pub at_last : At X u w last v
  pub follows : n ≡ last + 1

pending_update-IsQuiet : (w : ℕ) (id : String) → IsQuiet (pending_update w id)
unfolding pending_update
pending_update-IsQuiet w id = record { same = λ s r a h. ground arith }

module _ (x : Session) (X : ℕ → Type 0) (u : View) (w : ℕ) where
  -- A new execution comes while another one gets its events.
  pub insert_workflow-At :
      (n child : ℕ) (e : Execution) (text : String)
      → e.next_seq ≡ 2
      → Triple (At X u w n) (insert_workflow x child e text) (λ _. At X u w n)
  unfolding count
  insert_workflow-At n child e text two =
      post-Triple (insert_workflow x child e text) (λ _ v b. still v b)
        (insert_workflow-Triple (At X u w n) child e x text)
    where
      still : (v : View) → Born (At X u w n) child e text v → At X u w n v
      still v b =
          let a = b.holds in
          let other : child ≢ w = λ p.
            let here : lookup w b.before.executions ≡ none = rw (sym p) b.fresh in
            let there = a.stored in cc in
          rw b.after (record {
            sequenced = born-IsSequenced (Or X w) child e text b.before a.sequenced b.fresh two;
            grown = Grows-trans u b.before _ a.grown (born-Grows X child e text b.before b.fresh);
            last = count-added_other w b.before (started child text) other ∙ a.last;
            known = a.known;
            stored = lookup-old child w e b.before other ∙ a.stored;
          })

  module _ (n : ℕ) where
    activity-Triple :
        (c i : ℕ) (type : String) (input policy : Fields) (a b h : Option ℕ) (f queue : String)
        → Triple
            (Ready X u w n)
            (append_activity_command x w n c i type input policy a b h f queue)
            (λ _. At X u w n)
    unfolding append_activity_command
    activity-Triple c i type input policy a b h f queue =
        search (quiet-then, encoded-IsQuiet, inserted, insert_task-IsQuiet) depth 12
      where
        inserted :
            (text : String) (k : Void → Tx Void)
            → ((z : Void) → IsQuiet (k z))
            → Triple
                (Ready X u w n)
                (insert_event (event w n "ActivityScheduled" (some c) (some i) text) >>= k)
                (λ _. At X u w n)
        inserted text k q = insert-then X u _ k (λ z. quiet-Triple (k z) (q z))

    timer-Triple :
        (c i delay : ℕ) (purpose : String) (signal_name : Option String) (f queue : String)
        → Triple
            (Ready X u w n)
            (append_timer_command x w n c i delay purpose signal_name f queue)
            (λ _. At X u w n)
    unfolding append_timer_command
    timer-Triple c i delay purpose signal_name f queue =
        search (append-then, quiet-then, encoded-IsQuiet, insert_task-IsQuiet, quiet-Triple) depth
          12

    marker-Triple :
        (c : ℕ) (type : String) (value : Json) (f : String)
        → Triple (Ready X u w n) (append_marker_command x w n c type value f) (λ _. At X u w n)
    unfolding append_marker_command
    marker-Triple c type value f = search append_event-Triple

    resolution-Triple :
        (c : ℕ) (id : String) (accepted : Bool) (outcome : Json) (f : String)
        → Triple
            (Ready X u w n)
            (append_update_resolution x w n c id accepted outcome f)
            (λ _. At X u w n)
    unfolding append_update_resolution
    resolution-Triple c id accepted outcome f =
        search
          (
            quiet-then, encoded-IsQuiet, pending_update-IsQuiet, require-IsQuiet,
            update_updates-IsQuiet, resolved,
          )
          depth 14
      where
        resolved :
            (text : String)
            → Triple
                (Ready X u w n)
                (insert_event (record (event w n "WorkflowUpdateResolved" (some c) none text) {
                  external_id = some ("update-result:" ++ˢ id);
                }))
                (λ _. At X u w n)
        resolved text = insert_event-Triple X u _

    child-Triple :
        (c i : ℕ) (type : String) (version : ℕ) (input : Json) (queue : Option String)
        (policy f parent_queue : String)
        → Triple
            (Ready X u w n)
            (append_child_workflow_command x w n c i type version input queue policy f parent_queue)
            (λ _. At X u w n)
    unfolding append_child_workflow_command
    child-Triple c i type version input queue policy f parent_queue =
        search (quiet-then, require_definition-IsQuiet, append-then, encoded-IsQuiet, new_child)
          depth 16
      where
        new_child :
            (encoded_input encoded_attributes text : String)
            → Triple
                (At X u w n)
                (insert_workflow x i
                  (record (new_execution x type version encoded_input
                    (or_else queue parent_queue)
                    encoded_attributes) {
                      parent_workflow_id = some w;
                      parent_command_id = some c;
                      parent_close_policy = some policy;
                    })
                  text)
                (λ _. At X u w n)
        new_child encoded_input encoded_attributes text = insert_workflow-At n i _ text refl

  flagged :
      (n : ℕ) (m : Tx Void) (b : Bool)
      → Triple (Ready X u w n) m (λ _. At X u w n)
      → Triple (Ready X u w n) (m >> pure b) (λ _. At X u w n)
  flagged n m b t = bind-Triple m (λ _. pure b) t (λ _. quiet-Triple (pure b) (pure-IsQuiet b))

  module _ (queue : String) (n : ℕ) where
    activity_appended :
        (c i : ℕ) (t : String) (v q : Fields) (a b h : Option ℕ) (f : String)
        → Triple
            (Ready X u w n)
            (append_command x w queue n (schedule_activity c i t v q a b h f))
            (λ _. At X u w n)
    unfolding append_command
    activity_appended c i t v q a b h f =
        flagged n _ false (activity-Triple n c i t v q a b h f queue)

    timer_appended :
        (c i d : ℕ) (purpose : String) (signal_name : Option String) (f : String)
        → Triple
            (Ready X u w n)
            (append_command x w queue n (schedule_timer c i d purpose signal_name f))
            (λ _. At X u w n)
    unfolding append_command
    timer_appended c i d purpose signal_name f =
        flagged n _ false (timer-Triple n c i d purpose signal_name f queue)

    marker_appended :
        (c : ℕ) (t : String) (v : Json) (f : String)
        → Triple
            (Ready X u w n)
            (append_command x w queue n (record_marker c t v f))
            (λ _. At X u w n)
    unfolding append_command
    marker_appended c t v f = flagged n _ true (marker-Triple n c t v f)

    child_appended :
        (c i : ℕ) (t : String) (v : ℕ) (j : Json) (q : Option String) (k f : String)
        → Triple
            (Ready X u w n)
            (append_command x w queue n (start_child_workflow c i t v j q k f))
            (λ _. At X u w n)
    unfolding append_command
    child_appended c i t v j q k f = flagged n _ false (child-Triple n c i t v j q k f queue)

    resolution_appended :
        (c : ℕ) (id : String) (accepted : Bool) (outcome : Json) (f : String)
        → Triple
            (Ready X u w n)
            (append_command x w queue n (resolve_workflow_update c id accepted outcome f))
            (λ _. At X u w n)
    unfolding append_command
    resolution_appended c id accepted outcome f =
        flagged n _ true (resolution-Triple n c id accepted outcome f)

    append_command-Triple :
        (c : Command)
        → has_continuation (c ∷ []) ≡ false
        → Triple (Ready X u w n) (append_command x w queue n c) (λ _. At X u w n)
    append_command-Triple (schedule_activity c i t v q a b h f) p =
        activity_appended c i t v q a b h f
    append_command-Triple (schedule_timer c i d purpose signal_name f) p =
        timer_appended c i d purpose signal_name f
    append_command-Triple (record_marker c t v f) p = marker_appended c t v f
    append_command-Triple (start_child_workflow c i t v j q k f) p = child_appended c i t v j q k f
    append_command-Triple (resolve_workflow_update c id accepted outcome f) p =
        resolution_appended c id accepted outcome f
    append_command-Triple (continue_as_new c i t v j q f) p = absurd (false≢true (sym p))

  continues :
      (c : Command) (cs : List Command)
      → has_continuation (c ∷ cs) ≡ false
      → (has_continuation (c ∷ []) ≡ false) × (has_continuation cs ≡ false)
  continues (schedule_activity _ _ _ _ _ _ _ _ _) cs h = (refl, h)
  continues (schedule_timer _ _ _ _ _ _) cs h = (refl, h)
  continues (record_marker _ _ _ _) cs h = (refl, h)
  continues (start_child_workflow _ _ _ _ _ _ _ _) cs h = (refl, h)
  continues (resolve_workflow_update _ _ _ _ _) cs h = (refl, h)
  continues (continue_as_new _ _ _ _ _ _ _) cs h = cc

  append_rest-Triple :
      (queue : String) (last n : ℕ) (recorded : Bool) (cs : List Command)
      → has_continuation cs ≡ false
      → n ≡ last + 1
      → Triple (At X u w last) (append_commands x w queue n recorded cs) (λ r. Done X u w r.0)
  unfolding append_commands
  append_rest-Triple queue last n recorded [] p same = record {
    run = λ s t a h q.
        let tables : s ≡ t = ground arith in
        let number : a.0 ≡ n = ground arith in
        rw (sym tables, number) (record { last = last; at_last = h; follows = same });
  }
  append_rest-Triple queue last n recorded (c ∷ cs) p same =
      pre-Triple _ (λ v h. rw same (next-Ready X u w last v h))
        (bind-Triple (append_command x w queue n c) _
          (append_command-Triple queue n c (continues c cs p).0)
          (λ woken.
            append_rest-Triple queue n (n + 1) (recorded || woken) cs (continues c cs p).1 refl))

  pub append_commands-Triple :
      (queue : String) (n : ℕ) (recorded : Bool) (c : Command) (cs : List Command)
      → has_continuation (c ∷ cs) ≡ false
      → Triple (Ready X u w n) (append_commands x w queue n recorded (c ∷ cs)) (λ r. Done X u w r.0)
  unfolding append_commands
  append_commands-Triple queue n recorded c cs p =
      bind-Triple (append_command x w queue n c) _
        (append_command-Triple queue n c (continues c cs p).0)
        (λ woken.
          append_rest-Triple queue n (n + 1) (recorded || woken) cs (continues c cs p).1 refl)

  pub update-Done-Triple :
      (n : ℕ)
      → Triple (Done X u w n) (update_execution w (λ d. record d { next_seq = n })) (λ _. Base X u)
  update-Done-Triple n = record {
    run = λ s t a h p.
        (update_execution-Triple X u w h.last (λ d. record d { next_seq = n }) (λ _. h.follows)).run
          s t a h.at_last p;
  }
