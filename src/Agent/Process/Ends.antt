-- ===== src/Agent/Process/Ends.antt =====
-- The agent's wait for the operator ends as soon as one of its rounds has an answer.
use flatcar_linux_update_ope.Prelude.{
  ℕ, zero, suc, ◌≤◌, ◌≡◌, refl, ◌⊎◌, inl, inr, String, Option, some, arith,
}
use flatcar_linux_update_ope.Exec.{Outcome, ok, err, panic}
use flatcar_linux_update_ope.Client.{NodeClient, Selectors}
use flatcar_linux_update_ope.Agent.{Host}
use flatcar_linux_update_ope.Agent.Wait.{Watching, wait_for_ok_to_reboot}
use flatcar_linux_update_ope.Agent.Process.{
  Received, done, answered, Machine, Answer, stopped, permitted, begin, round, await_ok, resume,
  watch_and_wait, process,
}

-- Anything but an error of the wait, which the loop logs and forgets.
abbrev pub IsFinal : Received → Type 0
IsFinal done = Unit
IsFinal (answered (ok a)) = Unit
IsFinal (answered (err e)) = ⊥
IsFinal (answered panic) = Unit

module _ (c : NodeClient) (s : Selectors) (h : Host c.World) (t : Watching c.World)
    (m : Machine c.World) (host_files_prefix node_name : String) where
  -- One of the first `n` rounds from the world `w` on has a final answer.
  abbrev pub Ends : ℕ → c.World → Type 0
  Ends zero w = ⊥
  Ends (suc n) w =
      let r = m.select (wait_for_ok_to_reboot c t node_name s) w in IsFinal r.0 ⊎ Ends n r.1

  round_ends :
      (again : c.World → Option (Outcome Answer × c.World)) (x : Received × c.World)
      → IsFinal x.0 ⊎ ((r : Outcome Answer × c.World) × (again x.1 ≡ some r))
      → (r : Outcome Answer × c.World) × (round c s h t m host_files_prefix node_name again x
          ≡ some r)
  round_ends again (done, w) x = (_, refl)
  round_ends again (answered (ok a), w) x = (_, refl)
  round_ends again (answered (err e), w) (inl x) = absurd x
  round_ends again (answered (err e), w) (inr x) = x
  round_ends again (answered panic, w) x = (_, refl)

  await_ok-Ends :
      (n k : ℕ) (w : c.World)
      → n ≤ k
      → Ends n w
      → (r : Outcome Answer × c.World) × (await_ok c s h t m host_files_prefix node_name k w
          ≡ some r)
  unfolding await_ok
  await_ok-Ends zero k w le ends = absurd ends
  await_ok-Ends (suc n) zero w le ends = absurd (omega arith)
  await_ok-Ends (suc n) (suc k) w le ends =
      round_ends (λ v. await_ok c s h t m host_files_prefix node_name k v)
        (m.select (wait_for_ok_to_reboot c t node_name s) w)
        (elim ends [
          | inl final ↦ inl final
          | inr later ↦ inr (await_ok-Ends n k _ (omega arith) later)
        ])

  resumed :
      (o : Option (Outcome Answer × c.World)) (r : Outcome Answer × c.World)
      → o ≡ some r
      → (x : Outcome (Unit {0}) × c.World) × (resume c s h t m host_files_prefix node_name o
          ≡ some x)
  resumed o r e = rw e (known r)
    where
      known :
          (r : Outcome Answer × c.World)
          → (x : Outcome (Unit {0}) × c.World) × (resume c s h t m host_files_prefix node_name
                (some r)
              ≡ some x)
      known (ok stopped, w) = (_, refl)
      known (ok permitted, w) = (_, refl)
      known (err e, w) = (_, refl)
      known (panic, w) = (_, refl)

  begun-Ends :
      (n k : ℕ) (b : Outcome (Unit {0}) × c.World)
      → n ≤ k
      → (b.0 ≡ ok tt → Ends n (m.start_watching b.1))
      → (x : Outcome (Unit {0}) × c.World) × (watch_and_wait c s h t m host_files_prefix node_name k
            b
          ≡ some x)
  begun-Ends n k (ok tt, w) le ends =
      let (r, e) = await_ok-Ends n k (m.start_watching w) le (ends refl) in resumed _ r e
  begun-Ends n k (err e, w) le ends = (_, refl)
  begun-Ends n k (panic, w) le ends = (_, refl)

  -- If the start of `process` fails, or one of the first `n` rounds of its wait receives the end of
  -- the context, the permission or a panic, then `n` rounds are enough, and so are more: `process`
  -- returns.
  process-Ends :
      (n k : ℕ) (w : c.World)
      → n ≤ k
      → ((begin c s h t m host_files_prefix node_name w).0 ≡ ok tt
          → Ends n (m.start_watching (begin c s h t m host_files_prefix node_name w).1))
      → (x : Outcome (Unit {0}) × c.World) × (process c s h t m host_files_prefix node_name k w
          ≡ some x)
  unfolding process
  process-Ends n k w le ends =
      begun-Ends n k (begin c s h t m host_files_prefix node_name w) le ends
