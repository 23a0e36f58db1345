-- ===== src/Generate/Periods.antt =====
-- `parse_period`: the names of the periods against the enumeration in codes.h.
use eos_payg.Base.{
  ℕ, ◌≡◌, refl, subst, ◌∙◌, ◌↔◌, ◌⊎◌, inl, inr, Bool, true, false, ◌&&◌, List, [], ◌∷◌,
  if◌then◌else◌, ◌==◌, arith, Bool-cases, check_below, check_below_lem,
}
use eos_payg.Base.Strings.{str_equal, str_equal_lem}
use eos_payg.Codes.{invalid_period, Result, ok, err, abort, periods, has_case}
use eos_payg.Codes.Period.{has_case-periods-lt}
use eos_payg.Generate.{PeriodEntry, table, find_period, parse_period}

-- The name of the first entry for a period.
abbrev str_of : ℕ → List PeriodEntry → List ℕ
str_of p [] = []
str_of p (e ∷ es) = if p == e.period then e.period_str else str_of p es

-- Whether an entry is the only one for its period, and that a valid one.
abbrev named : PeriodEntry → Bool
named e = str_equal e.period_str (str_of e.period table) && has_case e.period periods

abbrev all_named : List PeriodEntry → Bool
all_named [] = true
all_named (e ∷ es) = named e && all_named es

table_named : all_named table ≡ true
unfolding has_case str_equal
table_named = refl

named_lem :
    (e : PeriodEntry) {p : ℕ}
    → named e ≡ true
    → e.period ≡ p
    → (e.period_str ≡ str_of p table) × (has_case p periods ≡ true)
named_lem e {p} n same =
    subst (λ q. (e.period_str ≡ str_of q table) × (has_case q periods ≡ true)) same
      (str_equal_lem e.period_str (str_of e.period table) (ground arith), ground arith)

find_period_lem :
    (s : List ℕ) (es : List PeriodEntry) {p : ℕ}
    → all_named es ≡ true
    → find_period s es ≡ ok p
    → (s ≡ str_of p table) × (has_case p periods ≡ true)
unfolding find_period
find_period_lem s [] a h = cc
find_period_lem s (e ∷ es) {p} a h = elim (Bool-cases (str_equal s e.period_str)) [
  | inl same ↦
      let r = named_lem e (ground arith) (ground arith) in
      (str_equal_lem s e.period_str same ∙ r.0, r.1)
  | inr other ↦ find_period_lem s es (ground arith) (ground arith)
]

find_period-failed :
    (s : List ℕ) (es : List PeriodEntry)
    → ((p : ℕ) × (find_period s es ≡ ok p)) ⊎ (find_period s es ≡ err invalid_period)
unfolding find_period
find_period-failed s [] = inr refl
find_period-failed s (e ∷ es) = ground (arith, find_period-failed s es)

abbrev is_parsed : ℕ → Result ℕ → Bool
is_parsed p (ok q) = p == q
is_parsed p (err e) = false
is_parsed p abort = false

is_parsed_lem : (p : ℕ) (r : Result ℕ) → is_parsed p r ≡ true → r ≡ ok p
is_parsed_lem p (ok q) h = ground arith
is_parsed_lem p (err e) h = cc
is_parsed_lem p abort h = cc

abbrev is_named : ℕ → Bool
is_named p = if has_case p periods then is_parsed p (parse_period (str_of p table)) else true

all_periods_named : check_below is_named 32 ≡ true
unfolding check_below has_case parse_period str_equal
all_periods_named = refl

parse_period-str_of :
    (t : List ℕ) {p : ℕ}
    → parse_period t ≡ ok p
    → (t ≡ str_of p table) × (has_case p periods ≡ true)
unfolding parse_period
parse_period-str_of t h = find_period_lem t table table_named h

pub parse_period-periods : (t : List ℕ) {p : ℕ} → parse_period t ≡ ok p → has_case p periods ≡ true
parse_period-periods t h = (parse_period-str_of t h).1

str_of-parse_period : (p : ℕ) → has_case p periods ≡ true → parse_period (str_of p table) ≡ ok p
str_of-parse_period p valid =
    is_parsed_lem p _ (
      ground (arith, check_below_lem is_named 32 p (has_case-periods-lt p valid) all_periods_named))

-- The periods of epc_period_validate are exactly those with a name that parse_period accepts, and
-- each has exactly one name.
pub parse_period_iff :
    (p : ℕ)
    → (has_case p periods ≡ true)
      ↔ ((s : List ℕ) × (parse_period s ≡ ok p) × ((t : List ℕ) → parse_period t ≡ ok p → t ≡ s))
parse_period_iff p = (
  λ valid. (str_of p table, str_of-parse_period p valid, λ t h. (parse_period-str_of t h).0),
  λ (s, h, _). parse_period-periods s h,
)

-- A text is the name of a valid period, or refused as none.
pub parse_period_lem :
    (s : List ℕ) → ((p : ℕ) × (parse_period s ≡ ok p)) ⊎ (parse_period s ≡ err invalid_period)
unfolding parse_period
parse_period_lem s = find_period-failed s table
