-- ===== src/Manager/AddCode/Branches.antt =====
-- What `epg_manager_add_code` does with a code that is verified and not used.
use eos_payg.Base.{ℕ, ◌+◌, ◌≤◌, ◌<◌, min, max, ◌≡◌, refl, true, false, some, replicate, arith}
use eos_payg.Codes.{periods, has_case}
use eos_payg.Manager.{Manager, Runtime, Clock, max_uint64, max_int64}
use eos_payg.Manager.RateLimit.{clear_rate_limiting}
use eos_payg.Manager.UsedCodes.{is_used, check_is_counter_unused, mark_used}
use eos_payg.Manager.Expiry.{period_spans, find_span}
use eos_payg.Manager.Expiry.Time.{add_clamped, extend_expiry_time_lem}
use eos_payg.Manager.Save.Begin.{begin_save_lem}
use eos_payg.Manager.AddCode.{added, add_verified}

-- The numbers fit their types, and another save can be counted.
pub record IsReady (c : Clock) (m : Manager) : Type 0 where
  pub now_fits : c.time ≤ max_uint64
  pub expiry_fits : m.expiry_time_secs ≤ max_uint64
  pub few_saves : m.pending_internal_save_state_calls < max_uint64

clear_rate_limiting_lem :
    (m : Manager)
    → ((clear_rate_limiting m).used_codes ≡ m.used_codes)
      × ((clear_rate_limiting m).enabled ≡ m.enabled)
      × ((clear_rate_limiting m).key_bytes ≡ m.key_bytes)
      × ((clear_rate_limiting m).is_cancelled ≡ m.is_cancelled)
      × ((clear_rate_limiting m).expiry_time_secs ≡ m.expiry_time_secs)
      × ((clear_rate_limiting m).pending_internal_save_state_calls
          ≡ m.pending_internal_save_state_calls)
      × ((clear_rate_limiting m).rate_limiting_history ≡ replicate 10 0)
      × ((clear_rate_limiting m).rate_limit_end_time_secs ≡ 0)
unfolding clear_rate_limiting
clear_rate_limiting_lem m = ground arith

mark_used_lem :
    (R : Runtime) (p c : ℕ) (m : Manager)
    → ((mark_used R p c m).enabled ≡ m.enabled)
      × ((mark_used R p c m).key_bytes ≡ m.key_bytes)
      × ((mark_used R p c m).is_cancelled ≡ m.is_cancelled)
      × ((mark_used R p c m).expiry_time_secs ≡ m.expiry_time_secs)
      × ((mark_used R p c m).pending_internal_save_state_calls
          ≡ m.pending_internal_save_state_calls)
unfolding mark_used
mark_used_lem R p c m = (refl, refl, refl, refl, refl)

-- What a successful call changed, for a code of this period and counter.
pub record Added (R : Runtime) (c : Clock) (period counter : ℕ) (m m' : Manager) (time : ℕ)
    : Type 0 where
  pub marked : m'.used_codes ≡ (mark_used R period counter m).used_codes
  pub still_enabled : m'.enabled ≡ m.enabled
  pub same_key : m'.key_bytes ≡ m.key_bytes
  pub same_cancelled : m'.is_cancelled ≡ m.is_cancelled
  pub one_save : m'.pending_internal_save_state_calls ≡ m.pending_internal_save_state_calls + 1
  pub history_reset : m'.rate_limiting_history ≡ replicate 10 0
  pub limit_reset : m'.rate_limit_end_time_secs ≡ 0
  pub span : ℕ
  pub span_of_period : find_span period period_spans ≡ some span
  pub time_reported : time ≡ min span max_int64
  pub extended :
      c.source_ok ≡ true → m'.expiry_time_secs ≡ add_clamped (max c.time m.expiry_time_secs) span

module _ (R : Runtime) (c : Clock) where
  pub add_verified_lem :
      (period counter : ℕ) (m : Manager)
      → has_case period periods ≡ true
      → IsReady c m
      → is_used period counter m.used_codes ≡ false
      → (m' : Manager) × (time : ℕ) × (add_verified R c period counter m ≡ some (m', added time))
        × Added R c period counter m m' time
  unfolding add_verified check_is_counter_unused
  add_verified_lem period counter m valid ready unused =
      let m1 = mark_used R period counter m in
      let same1 = mark_used_lem R period counter m in
      let (span, r, found, done, time, keeps, pending, set) =
        extend_expiry_time_lem R c c.time period m1 valid ready.now_fits
          (ground (arith, ready.expiry_fits)) (ground (arith, ready.few_saves)) in
      let m2 = clear_rate_limiting r.0 in
      let same2 = clear_rate_limiting_lem r.0 in
      let (m3, begun, keeps3, time3, timer3, pending3) =
        begin_save_lem c m2 (ground (arith, same2, pending, ready.few_saves)) in
      (
        m3,
        r.1,
        rw (unused, done, begun),
        record {
          marked = ground (arith, keeps3, same2, keeps);
          still_enabled = ground (arith, keeps3, same2, keeps, same1);
          same_key = ground (arith, keeps3, same2, keeps, same1);
          same_cancelled = ground (arith, keeps3, same2, keeps, same1);
          one_save = ground (arith, pending3, same2, pending, same1);
          history_reset = ground (arith, keeps3, same2);
          limit_reset = ground (arith, keeps3, same2);
          span = span;
          span_of_period = found;
          time_reported = time;
          extended = λ works. ground (arith, time3, same2, (set works).0, same1);
        },
      )
