-- ===== src/Updateengine.antt =====
-- pkg/updateengine/status.go and pkg/updateengine/client.go: statuses read from D-Bus messages.
pub mod Laws
use flatcar_linux_update_ope.Prelude.{ℕ, String, ◌<>◌, Option, none, some, List, [], ◌∷◌}
use flatcar_linux_update_ope.Prelude.Int.{ℤ, pos}

-- The current operations that update_engine reports.
abbrev pub update_status_idle : String
update_status_idle = "UPDATE_STATUS_IDLE"

abbrev pub update_status_checking_for_update : String
update_status_checking_for_update = "UPDATE_STATUS_CHECKING_FOR_UPDATE"

abbrev pub update_status_update_available : String
update_status_update_available = "UPDATE_STATUS_UPDATE_AVAILABLE"

abbrev pub update_status_downloading : String
update_status_downloading = "UPDATE_STATUS_DOWNLOADING"

abbrev pub update_status_verifying : String
update_status_verifying = "UPDATE_STATUS_VERIFYING"

abbrev pub update_status_finalizing : String
update_status_finalizing = "UPDATE_STATUS_FINALIZING"

abbrev pub update_status_updated_need_reboot : String
update_status_updated_need_reboot = "UPDATE_STATUS_UPDATED_NEED_REBOOT"

abbrev pub update_status_reporting_error_event : String
update_status_reporting_error_event = "UPDATE_STATUS_REPORTING_ERROR_EVENT"

-- The names of update_engine on the bus.
abbrev pub dbus_path : String
dbus_path = "/com/coreos/update1"

abbrev pub dbus_destination : String
dbus_destination = "com.coreos.update1"

abbrev pub dbus_interface : String
dbus_interface = dbus_destination <> ".Manager"

abbrev pub dbus_signal_name_status_update : String
dbus_signal_name_status_update = "StatusUpdate"

abbrev pub dbus_method_name_get_status : String
dbus_method_name_get_status = "GetStatus"

abbrev pub signal_buffer : ℕ
signal_buffer = 32

-- A dynamic value of a message. A `float64` is kept as its bits, which the program only passes on.
pub data Value : Type 0 where
  int64 : ℤ → Value
  float64 : ℤ → Value
  text : String → Value

pub record Status : Type 0 where
  pub last_checked_time : ℤ
  pub progress : ℤ
  pub current_operation : String
  pub new_version : String
  pub new_size : ℤ

-- `none` is the panic of an index out of range or of a value of another type.
unfoldable pub new_status : List Value → Option Status
new_status (int64 a ∷ float64 p ∷ text o ∷ text v ∷ int64 n ∷ more) = some (record {
  last_checked_time = a;
  progress = p;
  current_operation = o;
  new_version = v;
  new_size = n;
})
new_status body = none

-- `Status{}`
abbrev pub zero_status : Status
zero_status = record {
  last_checked_time = pos 0;
  progress = pos 0;
  current_operation = "";
  new_version = "";
  new_size = pos 0;
}

-- `String`, where `sprintf` is `fmt.Sprintf`.
unfoldable pub status_string : (String → List Value → String) → Status → String
status_string sprintf st =
    sprintf "LastCheckedTime=%v Progress=%v CurrentOperation=%q NewVersion=%v NewSize=%v" (
      int64 st.last_checked_time
      ∷ float64 st.progress
      ∷ text st.current_operation
      ∷ text st.new_version
      ∷ int64 st.new_size
      ∷ [])

-- What `ReceiveStatuses` has sent so far, and whether it waits, has returned or has panicked.
pub data End : Type 0 where
  waiting returned panicked : End

abbrev pub Sent : Type 0
Sent = List Status × End

abbrev pub send : Status → Sent → Sent
send status (statuses, end) = (status ∷ statuses, end)

-- `rcvr <- NewStatus(body)`, and what follows
abbrev pub send_or_panic : Option Status → Sent → Sent
send_or_panic none rest = ([], panicked)
send_or_panic (some status) rest = send status rest

-- What the `select` of the loop receives: a value of `stop`, a signal with its body, or the nil
-- pointer of a channel of signals that is closed.
pub data Selected : Type 0 where
  stop closed : Selected
  signal : List Value → Selected

-- The loop, over what its `select` receives.
unfoldable pub receive : List Selected → Sent
unfolding new_status
receive [] = ([], waiting)
receive (stop ∷ events) = ([], returned)
receive (closed ∷ events) = ([], panicked)
receive (signal body ∷ events) = send_or_panic (new_status body) (receive events)

-- `getStatus`, where `none` is an error of the call, and the first send
unfoldable pub send_initial : Option (List Value) → Sent → Sent
send_initial none rest = send zero_status rest
send_initial (some body) rest = send_or_panic (new_status body) rest

unfoldable pub receive_statuses : Option (List Value) → List Selected → Sent
unfolding send_initial
receive_statuses call events = send_initial call (receive events)
