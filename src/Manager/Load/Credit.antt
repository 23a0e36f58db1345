-- ===== src/Manager/Load/Credit.antt =====
-- The credit that a restart leaves of the saved seconds.
use eos_payg.Base.{ℕ, ◌+◌, ◌-◌, ◌^◌, ◌≤◌, ◌<◌, ◌≡◌, false, some, arith}
use eos_payg.MultiTask.{GTask}
use eos_payg.Manager.{Manager, Runtime, Clock, max_uint64}
use eos_payg.Manager.Save.{save_state_async}
use eos_payg.Manager.Expiry.Time.{add_clamped}
use eos_payg.Manager.Load.{
  LoadState, wallclock_time_file, expiry_seconds_file, contents, remaining_credit,
  without_bogus_credit, file_load_cb,
}
use eos_payg.Manager.Load.Restart.{restart_lem}

remaining_credit_at_most :
    (saved_at saved now : ℕ) → remaining_credit saved_at saved now ≤ saved - (now - saved_at)
unfolding remaining_credit without_bogus_credit
remaining_credit_at_most saved_at saved now = ground arith

add_clamped_at_most : (a b : ℕ) → add_clamped a b ≤ a + b
add_clamped_at_most a b = ground arith

-- A manager with a 64-bit expiry time saves at a 64-bit wall clock time, and a start reads the two
-- clock files of the save, that of the wall clock first; the start's task has not failed and has
-- between 1 and 2 ^ 32 - 2 operations pending, no saved seconds have been read before, the clock
-- fits in 64 bits, and another save can be counted. Then, whether there is a clock source or not,
-- both callbacks return, and the new expiry time is at most the clock plus the seconds that were
-- left at the save, less what the wall clock has moved forward since the save.
pub restart_credit_at_most :
    (G : GTask) (R : Runtime) (before c : Clock) (m : Manager) (st : LoadState G)
    → before.save_wallclock < 2 ^ 64
    → m.expiry_time_secs < 2 ^ 64
    → c.time ≤ max_uint64
    → st.manager.pending_internal_save_state_calls < max_uint64
    → G.had_error st.task.handle ≡ false
    → 0 < st.task.pending
    → st.task.pending < 2 ^ 32 - 1
    → st.manager.last_save_expiry_secs_set ≡ false
    → (st1 : LoadState G) × (st2 : LoadState G) × (file_load_cb G R c wallclock_time_file
          (contents (save_state_async before m).clock_time)
          st
        ≡ some st1)
      × (file_load_cb G R c expiry_seconds_file
            (contents (save_state_async before m).expiry_seconds)
            st1
          ≡ some st2)
      × (st2.manager.expiry_time_secs
          ≤ c.time
            + (m.expiry_time_secs - before.save_time - (c.wallclock - before.save_wallclock)))
restart_credit_at_most G R before c m st fits_wall fits_expiry fits few fine some_left pending
      unset =
    let (st1, st2, first, second, at_most, _) =
      restart_lem G R before c m st fits_wall fits_expiry fits few fine some_left pending unset in
    let left = m.expiry_time_secs - before.save_time in
    let credit = remaining_credit before.save_wallclock left c.wallclock in
    (
      st1,
      st2,
      first,
      second,
      omega (
        arith,
        at_most,
        remaining_credit_at_most before.save_wallclock left c.wallclock,
        add_clamped_at_most c.time credit,
      ),
    )
