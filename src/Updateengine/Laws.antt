-- ===== src/Updateengine/Laws.antt =====
-- Which messages carry a status, and which statuses reach the agent.
use mathlib.Core.Option.{some-injective}
use flatcar_linux_update_ope.Prelude.{◌≡◌, ◌↔◌, refl, ap, none, some, List, [], ◌∷◌, ◌++◌, map}
use flatcar_linux_update_ope.Exec.{Exec}
use flatcar_linux_update_ope.Updateengine.{
  Value, int64, float64, text, Status, new_status, returned, send, Selected, stop, signal, receive,
  receive_statuses,
}
use flatcar_linux_update_ope.Agent.{watch_update_status}

-- The body of the message that carries the status.
abbrev pub body_of : Status → List Value
body_of st =
    int64 st.last_checked_time
    ∷ float64 st.progress
    ∷ text st.current_operation
    ∷ text st.new_version
    ∷ int64 st.new_size
    ∷ []

-- `NewStatus` does not panic exactly on the bodies that begin with the five values of a status, of
-- the types and in the order in which update_engine sends them, and returns that status.
pub new_status-body_of :
    (body : List Value) (st : Status)
    → (new_status body ≡ some st) ↔ ((more : List Value) × (body ≡ body_of st ++ more))
unfolding new_status
new_status-body_of body st = (read body, λ (more, e). rw e refl)
  where
    read :
        (body : List Value)
        → new_status body ≡ some st
        → (more : List Value) × (body ≡ body_of st ++ more)
    read (int64 a ∷ float64 p ∷ text o ∷ text v ∷ int64 n ∷ more) e =
        (more, ap (λ x. body_of x ++ more) (some-injective _ st e))
    read _ e = cc

-- When the call for the status succeeds and every message carries a status, `ReceiveStatuses` sends
-- the status of the call and those of the signals, in the order in which they came, up to the
-- first value of `stop`, and returns.
pub receive_statuses-map :
    (first : Status) (statuses : List Status) (events : List Selected)
    → receive_statuses
        (some (body_of first))
        (map (λ st. signal (body_of st)) statuses ++ stop ∷ events)
      ≡ (first ∷ statuses, returned)
unfolding receive_statuses receive
receive_statuses-map first statuses events = ap (send first) (rest statuses)
  where
    rest :
        (statuses : List Status)
        → receive (map (λ st. signal (body_of st)) statuses ++ stop ∷ events) ≡ (statuses, returned)
    rest [] = refl
    rest (st ∷ statuses) = ap (send st) (rest statuses)

-- When the call for the status fails, the empty status that `ReceiveStatuses` sends first never
-- reaches the callback of the agent: the callback runs as if only the statuses of the signals had
-- been sent.
pub receive_statuses-watch_update_status :
    {W : Type 0} (update : Status → Exec W (Unit {0})) (events : List Selected) (w : W)
    → watch_update_status update "" (receive_statuses none events).0 w
      ≡ watch_update_status update "" (receive events).0 w
unfolding receive_statuses watch_update_status
receive_statuses-watch_update_status update events w = refl
