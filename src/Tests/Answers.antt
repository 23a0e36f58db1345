-- ===== src/Tests/Answers.antt =====
-- Tasks with several operations, and a shutdown during saves.
use eos_payg.Base.{◌≡◌, refl, true, false, [], ◌∷◌}
use eos_payg.MultiTask.{boolean, error, multi_returns}
use eos_payg.MultiTask.Once.{overall, deliver, returns_once}
use eos_payg.Manager.{Manager, shutdown_returned}
use eos_payg.Manager.Shutdown.{shutdown_async}
use eos_payg.Manager.Shutdown.Answer.{finish_saves, shutdown_answered}
use eos_payg.Tests.Samples.{gtask, clock_at, fresh}

returns_once_example :
    multi_returns gtask
      (boolean true ∷ error 7 ∷ boolean true ∷ [])
      (record { pending = 3; handle = [] })
    ≡ record {
      pending = 0;
      handle = deliver gtask (overall (boolean true) (error 7 ∷ boolean true ∷ [])) [];
    }
returns_once_example =
    returns_once gtask (boolean true) (error 7 ∷ boolean true ∷ [])
      (record { pending = 3; handle = [] }) refl refl

-- Two saves are in flight.
abbrev saving : Manager
saving = record fresh { pending_internal_save_state_calls = 2 }

shutdown_answered_example :
    let m' = finish_saves (true ∷ false ∷ []) (shutdown_async (clock_at 3600) saving) in
    ((finish_saves (true ∷ []) (shutdown_async (clock_at 3600) saving)).events ≡ [])
    × (m'.events ≡ shutdown_returned false ∷ [])
    × (m'.pending_shutdown ≡ false)
    × (m'.is_cancelled ≡ true)
    × (m'.pending_internal_save_state_calls ≡ 0)
shutdown_answered_example = shutdown_answered (clock_at 3600) saving (true ∷ []) false refl refl
