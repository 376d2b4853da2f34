-- ===== src/Execution/Signals.antt =====
-- src/secopent/application/execution.py: the step gate reads a control signal once.
use sec_opent.Prelude.{none, some, String, string_eq, ◌≡◌, ◌≢◌, refl, arith}
use text.Mathlib.TextEquality.{eq_iff}
use sec_opent.Prelude.Dict.{lookup, lookup-insert, lookup-insert_self}
use sec_opent.Assessment.{ControlState, Assessment}
use sec_opent.Service.{Store}
use sec_opent.Orchestrator.{go_on, cancelled}
use sec_opent.Execution.Gate.{control_gate, answer_to, after_signal}

module _ (id : String) (s : Store) where
  gate-missing : lookup id s.assessments ≡ none → control_gate id s ≡ (cancelled, s)
  unfolding control_gate
  gate-missing h = ground (arith, h)

  gate-reads :
      (a : Assessment)
      → lookup id s.assessments ≡ some a
      → control_gate id s ≡ (answer_to a.control, after_signal a.control a s)
  unfolding control_gate
  gate-reads a h = ground (arith, h)

  -- What is stored under the id after the signal was read: the same, with no signal.
  cleared :
      (a : Assessment) (c : ControlState)
      → a.control ≡ c
      → lookup id s.assessments ≡ some a
      → a.id ≡ id
      → lookup id (after_signal c a s).assessments ≡ some (record a { control = ControlState.idle })
  cleared a ControlState.idle e h i = ground (arith, e, h)
  cleared a ControlState.pause_requested e h i =
      ground
        (arith, i, lookup-insert_self id (record a { control = ControlState.idle }) s.assessments)
  cleared a ControlState.resume_requested e h i =
      ground
        (arith, i, lookup-insert_self id (record a { control = ControlState.idle }) s.assessments)
  cleared a ControlState.cancel_requested e h i =
      ground
        (arith, i, lookup-insert_self id (record a { control = ControlState.idle }) s.assessments)

  others_kept :
      (a : Assessment) (c : ControlState) (j : String)
      → a.id ≡ id
      → j ≢ id
      → lookup j (after_signal c a s).assessments ≡ lookup j s.assessments
  others_kept a ControlState.idle j i n = refl
  others_kept a ControlState.pause_requested j i n = ground (
    arith,
    i,
    n,
    lookup-insert a.id j (record a { control = ControlState.idle }) s.assessments,
    eq_iff a.id j,
  )
  others_kept a ControlState.resume_requested j i n = ground (
    arith,
    i,
    n,
    lookup-insert a.id j (record a { control = ControlState.idle }) s.assessments,
    eq_iff a.id j,
  )
  others_kept a ControlState.cancel_requested j i n = ground (
    arith,
    i,
    n,
    lookup-insert a.id j (record a { control = ControlState.idle }) s.assessments,
    eq_iff a.id j,
  )

-- The gate of a stored assessment answers its control signal, and leaves the assessment as it was but for
-- the signal, which is cleared, and every other assessment as it was. Asked again, it goes on and writes
-- nothing, unless a new signal was written. The gate of an assessment that is gone cancels.
pub control_gate-once :
    (id : String) (s : Store)
    → (lookup id s.assessments ≡ none → control_gate id s ≡ (cancelled, s))
      × ((a : Assessment)
          → lookup id s.assessments ≡ some a
          → a.id ≡ id
          → let after = (control_gate id s).1 in
            ((control_gate id s).0 ≡ answer_to a.control)
            × (lookup id after.assessments ≡ some (record a { control = ControlState.idle }))
            × ((j : String) → j ≢ id → lookup j after.assessments ≡ lookup j s.assessments)
            × (control_gate id after ≡ (go_on, after)))
control_gate-once id s = (
  gate-missing id s,
  λ a h i.
      let r = gate-reads id s a h in
      let k = cleared id s a a.control refl h i in
      (
        rw r refl,
        rw r k,
        λ j n. rw r (others_kept id s a a.control j i n),
        rw r (
            gate-reads id (after_signal a.control a s) (record a { control = ControlState.idle })
              k),
      ),
)
