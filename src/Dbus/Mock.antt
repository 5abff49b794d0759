-- ===== src/Dbus/Mock.antt =====
-- pkg/dbus/mock.go: a connection and an object whose methods are fields. A method whose field is nil
-- does nothing and returns zero values.
use flatcar_linux_update_ope.Prelude.{ℕ, String, Option, none, some, List, []}
use flatcar_linux_update_ope.Exec.{Exec, ◌>>=◌, pure, crash}
use flatcar_linux_update_ope.Updateengine.{Value}
use flatcar_linux_update_ope.Dbus.{Bus}

-- `if m.F == nil { return nil }; return m.F(...)`
abbrev or_zero : {W A : Type 0} → A → Option (Exec W A) → Exec W A
or_zero zero none = pure zero
or_zero zero (some f) = f

-- `&godbus.Call{}`: no error and no body
abbrev no_body : List Value
no_body = []

module _ (W : Type 0) where
  pub record MockObject : Type 0 where
    pub call_with_context_f : Option (String → Exec W (List Value))
    pub call_f : Option (String → Exec W (List Value))

  module _ (o : MockObject) where
    abbrev pub call : String → Exec W (List Value)
    call method = elim o.call_f [ none ↦ pure no_body | some f ↦ f method ]

    -- The context is the function's own.
    abbrev pub call_with_context : String → Exec W (List Value)
    call_with_context method = elim o.call_with_context_f [
      | none ↦ pure no_body
      | some f ↦ f method
    ]

    abbrev pub go_call : String → Exec W (List Value)
    go_call method = pure no_body

    abbrev pub destination : String
    destination = ""

    abbrev pub path : String
    path = ""

  module _ (Channel : Type 0) where
    pub record MockConnection : Type 0 where
      pub auth_f : Option (Exec W (Unit {0}))
      pub hello_f : Option (Exec W (Unit {0}))
      pub close_f : Option (Exec W (Unit {0}))
      pub add_match_signal_f : Option (String → String → Exec W (Unit {0}))
      pub signal_f : Option (Channel → W → W)
      pub object_f : Option (String → String → MockObject)

    abbrev pub add_match_signal : MockConnection → String → String → Exec W (Unit {0})
    add_match_signal m interface member = elim m.add_match_signal_f [
      | none ↦ pure tt
      | some f ↦ f interface member
    ]

    abbrev pub signal : MockConnection → Channel → W → W
    signal m ch w = elim m.signal_f [ none ↦ w | some f ↦ f ch w ]

    -- A nil object, or the one of the function.
    abbrev pub object : MockConnection → String → String → Option MockObject
    object m dest path = elim m.object_f [ none ↦ none | some f ↦ some (f dest path) ]

    -- A call of a nil object is a panic.
    abbrev pub call_object : Option MockObject → String → Exec W (List Value)
    call_object none method = crash
    call_object (some o) method = call o method

    -- The connection as a bus, where `make` makes the channels.
    abbrev pub mock_bus : (ℕ → Exec W Channel) → Bus W
    mock_bus make = record {
      Connection = MockConnection;
      Channel = Channel;
      Object = Option MockObject;
      auth = λ m. or_zero tt m.auth_f;
      hello = λ m. or_zero tt m.hello_f;
      close = λ m. or_zero tt m.close_f;
      add_match_signal = add_match_signal;
      signal = λ m n. make n >>= λ ch w. pure ch (signal m ch w);
      object = object;
      call = call_object;
    }
