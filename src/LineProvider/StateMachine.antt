-- ===== src/LineProvider/StateMachine.antt =====
-- src/line_provider/helpers/state_machine.py
use bsw.Common.{Bool, true, false, List, [], ◌∷◌, any, ◌&&◌, if◌then◌else◌}
use bsw.LineProvider.Schemas.{EventState}

-- `==` on the enum
abbrev pub state_eq : EventState → EventState → Bool
state_eq EventState.new EventState.new = true
state_eq EventState.finished_win EventState.finished_win = true
state_eq EventState.finished_lose EventState.finished_lose = true
state_eq _ _ = false

abbrev pub allowed_transitions : List (EventState × EventState)
allowed_transitions =
    (EventState.new, EventState.finished_win) ∷ (EventState.new, EventState.finished_lose) ∷ []

unfoldable pub is_transition_allowed : EventState → EventState → Bool
is_transition_allowed current target =
    if state_eq current target
    then true
    else any (λ t. state_eq t.0 current && state_eq t.1 target) allowed_transitions
