-- ===== src/Daemon/Spin.antt =====
-- The last loop of `main`, and how the process ends.
use eos_payg.Base.{
  ℕ, ◌≡◌, ◌≢◌, ◌⊎◌, inl, inr, refl, Bool, true, false, ◌||◌, none, some, List, [], ◌∷◌, ◌==◌,
  if◌then◌else◌, arith,
}
use eos_payg.Efi.{EfiOps}
use eos_payg.Daemon.{
  Daemon, Host, RunResult, ran, signalled, failed, exit_success, raised, pings_watchdog, spinning,
  Loop, iteration, spin, scheduled, finish,
}

-- Whether the call is due in one of the rounds.
abbrev pub is_due : List Bool → Bool
is_due [] = false
is_due (due ∷ rest) = due || is_due rest

-- Without an address nothing clears the id.
abbrev IsStuck : Loop → Type 0
IsStuck l = (l.timeout_id ≢ 0) × ((l.source ≡ none) ⊎ (l.source ≡ some false))

iteration-IsStuck : (due : Bool) (l : Loop) → IsStuck l → IsStuck (iteration due l)
iteration-IsStuck false l stuck = stuck
iteration-IsStuck true l (set, inl gone) = rw gone (set, inl refl)
iteration-IsStuck true l (set, inr kept) = rw kept (set, inl refl)

spin-IsStuck : (rounds : List Bool) (l : Loop) → IsStuck l → (spin rounds l).1 ≡ false
unfolding spin
spin-IsStuck [] l stuck = ground (arith, stuck.0)
spin-IsStuck (due ∷ rest) l stuck =
    let unset : (l.timeout_id == 0) ≡ false = ground (arith, stuck.0) in
    rw (unset) (spin-IsStuck rest (iteration due l) (iteration-IsStuck due l stuck))

spin-cleared :
    (rounds : List Bool) (n : ℕ)
    → (spin rounds (record { timeout_id = 0; source = none; poweroffs = n })).1 ≡ true
unfolding spin
spin-cleared [] n = refl
spin-cleared (due ∷ rest) n = refl

spin-address :
    (rounds : List Bool) (id : ℕ)
    → id ≢ 0
    → (spin rounds (record { timeout_id = id; source = some true; poweroffs = 0 })).1
      ≡ is_due rounds
unfolding spin
spin-address [] id set = ground arith
spin-address (true ∷ rest) id set =
    let unset : (id == 0) ≡ false = ground arith in rw (unset) (spin-cleared rest 1)
spin-address (false ∷ rest) id set =
    let unset : (id == 0) ≡ false = ground arith in rw (unset) (spin-address rest id set)

module _ {Store : Type 0} (efi : EfiOps Store) (h : Host) (d : Daemon efi) where
  -- At its end a daemon that enforces PAYG raises the signal that ended its service, once the
  -- power-off is due, goes on pinging the watchdog or exits with success after a service without
  -- error, and after any other error of the service is still waiting in the last loop, whatever
  -- number of rounds it has made.
  pub finish_lem :
      h.source_id ≢ 0
      → d.enforcing_mode ≡ true
      → ((h.run_result ≡ failed) × (finish efi h d ≡ spinning))
        ⊎ (((h.run_result ≡ signalled)
              × (finish efi h d ≡ (if is_due h.iterations then raised else spinning)))
            ⊎ ((h.run_result ≡ ran)
                × (finish efi h d ≡ (if d.watchdog then pings_watchdog else exit_success))))
  unfolding finish scheduled
  finish_lem set on = go h.run_result refl
    where
      go :
          (r : RunResult)
          → h.run_result ≡ r
          → ((h.run_result ≡ failed) × (finish efi h d ≡ spinning))
            ⊎ (((h.run_result ≡ signalled)
                  × (finish efi h d ≡ (if is_due h.iterations then raised else spinning)))
                ⊎ ((h.run_result ≡ ran)
                    × (finish efi h d ≡ (if d.watchdog then pings_watchdog else exit_success))))
      go failed e = inl (
        e,
        rw
            (
              on,
              e,
              spin-IsStuck h.iterations
                  (record { timeout_id = h.source_id; source = some false; poweroffs = 0 })
                  (set, inr refl),
            )
            refl,
      )
      go signalled e = inr (inl (e, rw (on, e, spin-address h.iterations h.source_id set) refl))
      go ran e = inr (inr (e, rw (on, e, spin-cleared h.iterations 0) refl))
