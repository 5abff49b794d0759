-- ===== src/Dbus.antt =====
-- pkg/dbus/conn.go: `New`, and `New`, `ReceiveStatuses` and `Close` of pkg/updateengine/client.go on top of it.
pub mod Laws
pub mod Mock
use flatcar_linux_update_ope.Prelude.{ℕ, String, ◌<>◌, Option, none, some, List, [], ◌∷◌}
use flatcar_linux_update_ope.Updateengine.{
  Value, Selected, Sent, panicked, receive_statuses, dbus_path, dbus_destination, dbus_interface,
  dbus_signal_name_status_update, dbus_method_name_get_status, signal_buffer,
}
use flatcar_linux_update_ope.Exec.{
  Error, message, wrap, Outcome, ok, err, panic, Exec, ◌>>=◌, ◌>>◌, pure, fail, wrapping,
}

-- `Connection`, and the calls of it that change the state of the program or of the bus.
pub record Bus (W : Type 0) : Type 1 where
  pub Connection : Type 0
  pub Channel : Type 0
  pub Object : Type 0
  -- `conn.Auth(methods)` for the user of the process
  pub auth : Connection → Exec W (Unit {0})
  pub hello : Connection → Exec W (Unit {0})
  pub close : Connection → Exec W (Unit {0})
  -- `conn.AddMatchSignal` for an interface and a member
  pub add_match_signal : Connection → String → String → Exec W (Unit {0})
  -- `make(chan *godbus.Signal, n)` and `conn.Signal(ch)`
  pub signal : Connection → ℕ → Exec W Channel
  -- `conn.Object` for a destination and a path, and a call of one of its methods: the error of the
  -- call, or its body
  pub object : Connection → String → String → Object
  pub call : Object → String → Exec W (List Value)

module _ {W : Type 0} (b : Bus W) where
  -- `connector`, which may be nil
  abbrev pub Connector : Type 0
  Connector = Option (Exec W b.Connection)

  -- After an error the connection is closed, and the error of that is dropped.
  abbrev pub or_close : b.Connection → String → Outcome (Unit {0}) × W → Outcome (Unit {0}) × W
  or_close conn format (ok a, w) = (ok a, w)
  or_close conn format (err e, w) = (err (wrap format [] e), (b.close conn w).1)
  or_close conn format (panic, w) = (panic, w)

  unfoldable pub new : Connector → Exec W b.Connection
  new none = fail (message "no connection creator given" [])
  new (some connector) = do
    conn ← wrapping "connecting to D-Bus: %w" [] connector
    authenticated ← λ w. or_close conn "authenticating to D-Bus: %w" (b.auth conn w)
    greeted ← λ w. or_close conn "sending hello to D-Bus: %w" (b.hello conn w)
    pure conn

  -- The client of update_engine: its connection, its object on the bus and its channel.
  pub record UpdateClient : Type 0 where
    pub conn : b.Connection
    pub object : b.Object
    pub ch : b.Channel

  unfoldable pub new_update_client : Connector → Exec W UpdateClient
  unfolding new
  new_update_client connector = do
    conn ← wrapping "creating D-Bus client: %w" [] (new connector)
    matched ←
        wrapping "adding filter: %w" []
          (b.add_match_signal conn dbus_interface dbus_signal_name_status_update)
    ch ← b.signal conn signal_buffer
    pure (record { conn = conn; object = b.object conn dbus_destination dbus_path; ch = ch })

  -- `ReceiveStatuses` after the call of `getStatus`.
  abbrev pub called : List Selected → Outcome (List Value) → Sent
  called events (ok body) = receive_statuses (some body) events
  called events (err e) = receive_statuses none events
  called events panic = ([], panicked)

  unfoldable pub receive_client_statuses : UpdateClient → List Selected → W → Sent × W
  receive_client_statuses client events w =
      let r = b.call client.object (dbus_interface <> "." <> dbus_method_name_get_status) w in
      (called events r.0, r.1)

  -- `Close`. The connection of a client that `New` made is not nil.
  unfoldable pub close_client : UpdateClient → Exec W (Unit {0})
  close_client client = b.close client.conn
