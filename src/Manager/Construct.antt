-- ===== src/Manager/Construct.antt =====
-- How an `EpgManager` is made: `epg_manager_init`, then the properties that it is constructed with,
-- then `epg_manager_constructed`, which puts defaults where there is none. Objects are numbered.
use eos_payg.Base.{ℕ, Bool, true, false, Option, none, some, List, [], ◌∷◌, replicate, ◌≡◌, refl}
use eos_payg.Manager.{Manager, assert, ◌>>=◌, ◌>>◌}

-- The manager with the objects that it refers to.
pub record Construction : Type 0 where
  pub manager : Manager
  pub account_id_file : Option ℕ
  pub key_file : Option ℕ
  pub state_directory : Option ℕ
  pub clock : Option ℕ

-- The properties, those that can be set with what they are set to.
pub data Property : Type 0 where
  prop_expiry_time prop_rate_limit_end_time prop_code_format prop_code_format_prefix : Property
  prop_code_format_suffix prop_code_length prop_account_id : Property
  prop_enabled : Bool → Property
  prop_account_id_file prop_key_file prop_state_directory prop_clock : Option ℕ → Property

abbrev is_null : Option ℕ → Bool
is_null none = true
is_null (some o) = false

unfoldable pub set_property : Property → Construction → Option Construction
set_property (prop_enabled b) c = some (record c { manager = record c.manager { enabled = b } })
set_property (prop_account_id_file f) c = do
  assert (is_null c.account_id_file)
  some (record c { account_id_file = f })
set_property (prop_key_file f) c = do assert (is_null c.key_file); some (record c { key_file = f })
set_property (prop_state_directory f) c = do
  assert (is_null c.state_directory)
  some (record c { state_directory = f })
set_property (prop_clock o) c = do assert (is_null c.clock); some (record c { clock = o })
set_property _ c = none

unfoldable pub set_properties : List Property → Construction → Option Construction
set_properties [] c = some c
set_properties (p ∷ ps) c = do c' ← set_property p c; set_properties ps c'

abbrev or_default : Option ℕ → ℕ → Option ℕ
or_default none d = some d
or_default (some o) d = some o

-- The default files and the default clock are arguments.
unfoldable pub constructed : ℕ → ℕ → ℕ → ℕ → Construction → Construction
constructed default_key_file default_account_id_file default_state_directory real_clock c =
    record c {
      key_file = or_default c.key_file default_key_file;
      account_id_file = or_default c.account_id_file default_account_id_file;
      state_directory = or_default c.state_directory default_state_directory;
      clock = or_default c.clock real_clock;
      manager = record c.manager { account_id = [] };
    }

unfoldable pub manager_init : Construction
manager_init = record {
  manager = record {
    used_codes = [];
    expiry_time_secs = 0;
    enabled = false;
    key_bytes = [];
    account_id = [];
    expiry = none;
    last_save_time_secs = 0;
    last_save_expiry_secs = 0;
    last_save_time_secs_set = false;
    last_save_expiry_secs_set = false;
    rate_limiting_history = replicate 10 0;
    rate_limit_end_time_secs = 0;
    pending_internal_save_state_calls = 0;
    pending_shutdown = false;
    is_cancelled = false;
    events = [];
  };
  account_id_file = none;
  key_file = none;
  state_directory = none;
  clock = none;
}

-- The properties that `epg_manager_new` gives, and what they make.
unfoldable pub manager_new :
    Bool
    → Option ℕ
    → Option ℕ
    → Option ℕ
    → Option ℕ
    → (Construction → Construction)
    → Option Construction
manager_new enabled key_file account_id_file state_directory clock defaults = do
  c ←
      set_properties
        (prop_enabled enabled
          ∷ prop_key_file key_file
          ∷ prop_account_id_file account_id_file
          ∷ prop_state_directory state_directory
          ∷ prop_clock clock
          ∷ [])
        manager_init
  some (defaults c)

-- Whatever the properties that were set, every reference is set at the end.
is_set : (o : Option ℕ) (d : ℕ) → (n : ℕ) × (or_default o d ≡ some n)
is_set none d = (d, refl)
is_set (some n) d = (n, refl)

constructed_lem :
    (k a d r : ℕ) (c : Construction)
    → ((n : ℕ) × ((constructed k a d r c).key_file ≡ some n))
      × ((n : ℕ) × ((constructed k a d r c).account_id_file ≡ some n))
      × ((n : ℕ) × ((constructed k a d r c).state_directory ≡ some n))
      × ((n : ℕ) × ((constructed k a d r c).clock ≡ some n))
unfolding constructed
constructed_lem k a d r c =
    (is_set c.key_file k, is_set c.account_id_file a, is_set c.state_directory d, is_set c.clock r)

-- No assertion of the setters fails, since each property is set once.
manager_new_lem :
    (enabled : Bool) (key_file account_id_file state_directory clock : Option ℕ) (k a d r : ℕ)
    → (c : Construction) × (manager_new enabled key_file account_id_file state_directory clock
          (constructed k a d r)
        ≡ some c)
      × (c.manager ≡ record manager_init.manager { enabled = enabled })
      × (c.key_file ≡ or_default key_file k)
      × (c.account_id_file ≡ or_default account_id_file a)
      × (c.state_directory ≡ or_default state_directory d)
      × (c.clock ≡ or_default clock r)
unfolding manager_new set_properties set_property manager_init constructed
manager_new_lem enabled key_file account_id_file state_directory clock k a d r =
    (_, refl, refl, refl, refl, refl, refl)
