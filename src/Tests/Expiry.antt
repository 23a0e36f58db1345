-- ===== src/Tests/Expiry.antt =====
-- The expiry time, the timer and the bytes of the state files on concrete inputs.
use eos_payg.Manager.Keeps.{Keeps}
use eos_payg.Base.{
  none, min, if◌then◌else◌, ◌-◌, ℕ, ◌≡◌, refl, true, some, List, [], ◌∷◌, ◌==◌, arith,
}
use eos_payg.Codes.{periods, has_case}
use eos_payg.Manager.{
  Manager, UsedCode, Runtime, IsSorted, used_codes_sort_cb, max_int64, max_uint, max_uint64,
}
use eos_payg.Manager.Expiry.{period_spans, find_span, extend_expiry_time}
use eos_payg.Manager.Expiry.Time.{add_clamped, extend_expiry_time_lem}
use eos_payg.Tests.Samples.{runtime, clock_at, fresh}

-- An hour after boot, with an hour left.
abbrev running : Manager
running = record fresh { expiry_time_secs = 7200; expiry = some 3600 }

has_period : has_case 5 periods ≡ true
unfolding has_case
has_period = refl

abbrev extended : Manager
extended = record fresh {
  expiry_time_secs = 180000;
  expiry = some 172800;
  events = eos_payg.Manager.notify_expiry_time ∷ [];
}

-- Two entries of the used-codes file.
abbrev entries : List UsedCode
entries = record { counter = 3; period = 5 } ∷ record { counter = 4; period = 25 } ∷ []

extend_expiry_time_lem_example :
    (span : ℕ) × (r : Manager × ℕ) × (find_span 5 period_spans ≡ some span)
    × (extend_expiry_time runtime (clock_at 3600) 3600 5 running ≡ some r)
    × (r.1 ≡ min span max_int64)
    × Keeps running r.0
    × (r.0.pending_internal_save_state_calls ≡ 0)
    × ((true ≡ true)
        → (r.0.expiry_time_secs ≡ add_clamped 7200 span)
          × (r.0.expiry ≡ (
              if add_clamped 7200 span == max_uint64
              then none
              else some (min (add_clamped 7200 span - 7200) max_uint))))
extend_expiry_time_lem_example =
    extend_expiry_time_lem runtime (clock_at 3600) 3600 5 running has_period (omega arith)
      (omega arith) (omega arith)
