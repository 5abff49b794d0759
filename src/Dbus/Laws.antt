-- ===== src/Dbus/Laws.antt =====
-- Which connections `New` of pkg/dbus/conn.go leaves open.
use flatcar_linux_update_ope.Prelude.{
  ℕ, suc, ◌-◌, ◌≡◌, ◌≢◌, refl, sym, ◌∙◌, ◌⊎◌, inl, inr, String, some, [], arith,
}
use flatcar_linux_update_ope.Exec.{Error, Outcome, ok, err, panic, Exec, continue, wrap_outcome}
use flatcar_linux_update_ope.Dbus.{
  Bus, or_close, new, new_update_client, close_client, UpdateClient,
}
use flatcar_linux_update_ope.Exec.Laws.{wrapped_passed}
use flatcar_linux_update_ope.Updateengine.{
  dbus_path, dbus_destination, dbus_interface, dbus_signal_name_status_update, signal_buffer,
}

-- Connecting opens a connection, closing one closes it, and the other calls do neither. None of
-- the calls panics.
pub record CountsOpen {W : Type 0} (b : Bus W) (connector : Exec W b.Connection) : Type 0 where
  pub opens : W → ℕ
  pub connects :
      (w : W)
      → ((conn : b.Connection) × ((connector w).0 ≡ ok conn)
          × (opens (connector w).1 ≡ suc (opens w)))
        ⊎ ((e : Error) × ((connector w).0 ≡ err e) × (opens (connector w).1 ≡ opens w))
  pub auth_keeps :
      (conn : b.Connection) (w : W)
      → (opens (b.auth conn w).1 ≡ opens w)
        × (((b.auth conn w).0 ≡ ok tt) ⊎ ((e : Error) × ((b.auth conn w).0 ≡ err e)))
  pub hello_keeps :
      (conn : b.Connection) (w : W)
      → (opens (b.hello conn w).1 ≡ opens w)
        × (((b.hello conn w).0 ≡ ok tt) ⊎ ((e : Error) × ((b.hello conn w).0 ≡ err e)))
  pub closes : (conn : b.Connection) (w : W) → opens (b.close conn w).1 ≡ opens w - 1

module _ {W : Type 0} (b : Bus W) (connector : Exec W b.Connection)
    (laws : CountsOpen b connector) where
  -- One more connection is open after success, and none after an error.
  abbrev pub Balanced : ℕ → Outcome b.Connection × W → Type 0
  Balanced n r =
      ((conn : b.Connection) × (r.0 ≡ ok conn) × (laws.opens r.1 ≡ suc n))
      ⊎ ((e : Error) × (r.0 ≡ err e) × (laws.opens r.1 ≡ n))

  less : (n m : ℕ) → n ≡ suc m → n - 1 ≡ m
  less n m h = omega arith

  ok_ne_err : (conn : b.Connection) (e : Error) → ok conn ≢ err e
  ok_ne_err conn e h = cc

  -- A call on the new connection, and the close after its error.
  step :
      (n : ℕ) (conn : b.Connection) (format : String) (rest : Exec W b.Connection)
      → ((w : W) → laws.opens w ≡ suc n → Balanced n (rest w))
      → (r : Outcome (Unit {0}) × W) → laws.opens r.1 ≡ suc n
      → (r.0 ≡ ok tt) ⊎ ((e : Error) × (r.0 ≡ err e))
      → Balanced n (continue (or_close b conn format r) (λ _. rest))
  step n conn format rest next (ok a, w) at h = next w at
  step n conn format rest next (err e, w) at h = inr (_, refl, omega (arith, laws.closes conn w))
  step n conn format rest next (panic, w) at (inl h) = cc
  step n conn format rest next (panic, w) at (inr (e, h)) = cc

  connected :
      (n : ℕ) (conn : b.Connection) (w : W)
      → laws.opens w ≡ suc n
      → Balanced n (
          continue (or_close b conn "authenticating to D-Bus: %w" (b.auth conn w)) (λ _ v.
            continue
              (or_close b conn "sending hello to D-Bus: %w" (b.hello conn v))
              (λ _ z. (ok conn, z))))
  connected n conn w at =
      let (auth_same, auth_result) = laws.auth_keeps conn w in
      step n conn _ _
        (λ v at_v.
          let (hello_same, hello_result) = laws.hello_keeps conn v in
          step n conn _ (λ z. (ok conn, z)) (λ z at_z. inl (conn, refl, at_z)) (b.hello conn v)
            (hello_same ∙ at_v) hello_result)
        (b.auth conn w) (auth_same ∙ at) auth_result

  opened :
      (n : ℕ) (r : Outcome b.Connection × W)
      → ((conn : b.Connection) × (r.0 ≡ ok conn) × (laws.opens r.1 ≡ suc n))
        ⊎ ((e : Error) × (r.0 ≡ err e) × (laws.opens r.1 ≡ n))
      → Balanced n (
          continue (wrap_outcome "connecting to D-Bus: %w" [] r) (λ conn w.
            continue (or_close b conn "authenticating to D-Bus: %w" (b.auth conn w)) (λ _ v.
              continue
                (or_close b conn "sending hello to D-Bus: %w" (b.hello conn v))
                (λ _ z. (ok conn, z)))))
  opened n (ok conn, w) (inl (x, h, at)) = connected n conn w at
  opened n (ok conn, w) (inr (e, h, at)) = cc
  opened n (err e, w) (inl (x, h, at)) = cc
  opened n (err e, w) (inr (x, h, at)) = inr (_, refl, at)
  opened n (panic, w) (inl (x, h, at)) = cc
  opened n (panic, w) (inr (e, h, at)) = cc

  -- `New` with a connector returns a connection, and then exactly one more is open, or an error,
  -- and then none more is: it closes the connection that it could not set up.
  pub new-Balanced : (w : W) → Balanced (laws.opens w) (new b (some connector) w)
  unfolding new
  new-Balanced w = opened (laws.opens w) (connector w) (laws.connects w)

  -- Adding the filter and the channel opens and closes nothing.
  pub record KeepsOpen : Type 0 where
    pub match_keeps :
        (conn : b.Connection) (interface member : String) (w : W)
        → laws.opens (b.add_match_signal conn interface member w).1 ≡ laws.opens w
    pub signal_keeps :
        (conn : b.Connection) (n : ℕ) (w : W) → laws.opens (b.signal conn n w).1 ≡ laws.opens w

  module _ (keeps : KeepsOpen) where
    abbrev client_of : b.Connection → b.Channel → Exec W (UpdateClient b)
    client_of conn ch z =
        (ok (record { conn = conn; object = b.object conn dbus_destination dbus_path; ch = ch }), z)

    signalled :
        (conn : b.Connection) (r : Outcome b.Channel × W)
        → laws.opens (continue r (client_of conn)).1 ≡ laws.opens r.1
    signalled conn (ok ch, w) = refl
    signalled conn (err e, w) = refl
    signalled conn (panic, w) = refl

    matched :
        (conn : b.Connection) (r : Outcome (Unit {0}) × W)
        → laws.opens
            (continue
              (wrap_outcome "adding filter: %w" [] r)
              (λ _ v. continue (b.signal conn signal_buffer v) (client_of conn))).1
          ≡ laws.opens r.1
    matched conn (ok a, w) =
        signalled conn (b.signal conn signal_buffer w) ∙ keeps.signal_keeps conn signal_buffer w
    matched conn (err e, w) = refl
    matched conn (panic, w) = refl

    made :
        (r : Outcome b.Connection × W)
        → laws.opens
            (continue (wrap_outcome "creating D-Bus client: %w" [] r) (λ conn v.
              continue
                (wrap_outcome "adding filter: %w" []
                  (b.add_match_signal conn dbus_interface dbus_signal_name_status_update v))
                (λ _ y. continue (b.signal conn signal_buffer y) (client_of conn)))).1
          ≡ laws.opens r.1
    made (ok conn, w) =
        matched conn (b.add_match_signal conn dbus_interface dbus_signal_name_status_update w)
        ∙ keeps.match_keeps conn dbus_interface dbus_signal_name_status_update w
    made (err e, w) = refl
    made (panic, w) = refl

    same_open :
        (w : W)
        → laws.opens (new_update_client b (some connector) w).1
          ≡ laws.opens (new b (some connector) w).1
    unfolding new_update_client new
    same_open w = made (new b (some connector) w)

    one_open :
        (w : W) (client : UpdateClient b)
        → (new_update_client b (some connector) w).0 ≡ ok client
        → laws.opens (new_update_client b (some connector) w).1 ≡ suc (laws.opens w)
    unfolding new_update_client
    one_open w client e =
        let (conn, got, _, _) = wrapped_passed _ _ (new b (some connector) w) _ client e in
        elim (new-Balanced w) [
          | inl (x, h, at) ↦ same_open w ∙ at
          | inr (x, h, at) ↦ absurd (ok_ne_err conn x (sym got ∙ h))
        ]

    -- `New` of the package updateengine leaves open what `New` of the package dbus opened, also
    -- when it returns an error because the filter could not be added. After it has returned a
    -- client, the `Close` of that client leaves as many open as before both.
    pub new_update_client-new :
        (w : W)
        → (laws.opens (new_update_client b (some connector) w).1
            ≡ laws.opens (new b (some connector) w).1)
          × ((client : UpdateClient b)
              → (new_update_client b (some connector) w).0 ≡ ok client
              → laws.opens (close_client b client (new_update_client b (some connector) w).1).1
                ≡ laws.opens w)
    unfolding close_client
    new_update_client-new w = (
      same_open w,
      λ client e.
          let v = (new_update_client b (some connector) w).1 in
          let now = one_open w client e in laws.closes client.conn v ∙ less _ _ now,
    )
