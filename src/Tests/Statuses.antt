-- ===== src/Tests/Statuses.antt =====
-- Sample messages of update_engine.
use flatcar_linux_update_ope.Prelude.{◌≡◌, refl, ◌++◌, ◌↔◌, none, some, List, [], ◌∷◌, map}
use flatcar_linux_update_ope.Prelude.Int.{pos}
use flatcar_linux_update_ope.Updateengine.{
  Value, text, Status, new_status, zero_status, returned, panicked, stop, receive, closed, signal,
  receive_statuses,
}
use flatcar_linux_update_ope.Exec.{ok, pure}
use flatcar_linux_update_ope.Dbus.{Bus, new, receive_client_statuses}
use flatcar_linux_update_ope.Dbus.Mock.{MockConnection, MockObject, mock_bus}
use flatcar_linux_update_ope.Updateengine.Laws.{body_of, new_status-body_of, receive_statuses-map}

abbrev idle : Status
idle = record {
  last_checked_time = pos 1;
  progress = pos 0;
  current_operation = "UPDATE_STATUS_IDLE";
  new_version = "0.0.0";
  new_size = pos 7;
}

new_status-body_of_example :
    (new_status (body_of idle ++ text "more" ∷ []) ≡ some idle)
    ↔ ((more : List Value) × (body_of idle ++ text "more" ∷ [] ≡ body_of idle ++ more))
new_status-body_of_example = new_status-body_of (body_of idle ++ text "more" ∷ []) idle

receive_statuses-map_example :
    receive_statuses
      (some (body_of zero_status))
      (map (λ st. signal (body_of st)) (idle ∷ idle ∷ []) ++ stop ∷ closed ∷ [])
    ≡ (zero_status ∷ idle ∷ idle ∷ [], returned)
receive_statuses-map_example = receive_statuses-map zero_status (idle ∷ idle ∷ []) (closed ∷ [])

-- The mock of a connection whose fields are all nil.
abbrev nil_mock : MockConnection (Unit {0}) (Unit {0})
nil_mock = record {
  auth_f = none;
  hello_f = none;
  close_f = none;
  add_match_signal_f = none;
  signal_f = none;
  object_f = none;
}

abbrev mocked : Bus (Unit {0})
mocked = mock_bus (Unit {0}) (Unit {0}) (λ n. pure tt)

-- It is accepted as a connection,
nil_mock_accepted : new mocked (some (pure nil_mock)) tt ≡ (ok nil_mock, tt)
unfolding new
nil_mock_accepted = refl

-- but its object is nil, and the call for the status is a panic.
nil_mock_panics :
    (receive_client_statuses mocked (record { conn = nil_mock; object = none; ch = tt }) [] tt).0
    ≡ ([], panicked)
unfolding receive_client_statuses
nil_mock_panics = refl

-- An object that answers the call.
abbrev answering : MockObject (Unit {0})
answering = record { call_with_context_f = none; call_f = some (λ method. pure (body_of idle)) }

answered :
    (receive_client_statuses mocked
      (record { conn = nil_mock; object = some answering; ch = tt })
      (stop ∷ [])
      tt).0
    ≡ (idle ∷ [], returned)
unfolding receive_client_statuses receive_statuses receive new_status
answered = refl
