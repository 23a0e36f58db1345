-- ===== src/ManagerService/Properties/GetAll.antt =====
-- `GetAll` against `Get`, and the properties against the interface that the object declares.
use eos_payg.Base.{
  ◌≡◌, refl, sym, subst, ◌∙◌, ◌⊎◌, inl, inr, Bool, true, false, not, ◌&&◌, Option, none, some, List,
  [], ◌∷◌, All, if◌then◌else◌, Bool-cases, Option-cases, arith,
}
use eos_payg.Provider.{Provider}
use eos_payg.ManagerService.{Variant, payg_interface}
use eos_payg.ManagerService.Properties.{
  DbusError, Reply, return_value, set_found, return_dict, return_error, unknown_interface,
  unknown_property, property_read_only, PropertyEntry, is_property, find_property, insert_value,
  insert_all, manager_properties, properties_get, properties_set, properties_get_all, get_found,
}
use Prim.Native.String.{String}
use text.Mathlib.Text.{◌==◌ as str_eq}
use text.Mathlib.TextEquality.{eq_iff}

unfoldable pub lookup : String → List (String × Variant) → Option Variant
lookup n [] = none
lookup n ((k, v) ∷ d) = let rest = lookup n d in if str_eq k n then some v else rest

-- Whether a name stands among those of entries, and whether the names differ.
abbrev has_name : {S : Type 0} → String → List (PropertyEntry S) → Bool
has_name n [] = false
has_name n (e ∷ es) = let rest = has_name n es in if str_eq e.property_name n then true else rest

abbrev are_distinct : {S : Type 0} → List (PropertyEntry S) → Bool
are_distinct [] = true
are_distinct (e ∷ es) = not (has_name e.property_name es) && are_distinct es

str_eq-apart : (j k n : String) → str_eq j k ≡ false → str_eq j n ≡ true → str_eq k n ≡ false
str_eq-apart j k n other here = elim (Bool-cases (str_eq k n)) [
  | inr there ↦ there
  | inl same ↦
      let eq : j ≡ k = (eq_iff j n).0 here ∙ sym ((eq_iff k n).0 same) in
      absurd (ground (arith, (eq_iff j k).1 eq))
]

lookup-insert_value :
    (n k : String) (v : Variant) (d : List (String × Variant))
    → lookup n (insert_value k v d) ≡ (if str_eq k n then some v else lookup n d)
unfolding lookup insert_value
lookup-insert_value n k v [] = refl
lookup-insert_value n k v ((j, w) ∷ d) = elim (Bool-cases (str_eq j k)) [
  | inl same ↦
      let eq : j ≡ k = (eq_iff j k).0 same in
      rw (same, eq)
        (elim (Bool-cases (str_eq k n)) [ inl here ↦ rw (here) refl | inr there ↦ rw (there) refl ])
  | inr other ↦ rw (other) (elim (Bool-cases (str_eq j n)) [
    | inl here ↦
        let away : str_eq k n ≡ false = str_eq-apart j k n other here in rw (here, away) refl
    | inr there ↦ rw (there) (lookup-insert_value n k v d)
  ])
]

-- The answer of `Get` for what a dictionary holds.
abbrev pub answered : Option Variant → Option Reply
answered none = some (return_error unknown_property)
answered (some v) = some (return_value (v ∷ []))

abbrev are_of : {S : Type 0} → String → List (PropertyEntry S) → Bool
are_of i [] = true
are_of i (e ∷ es) = str_eq e.interface_name i && are_of i es

module _ {S : Type 0} (i : String) (p : S) (n : String) where
  find_property-has_name :
      (es : List (PropertyEntry S))
      → are_of i es ≡ true
      → has_name n es ≡ false
      → find_property i n es ≡ none
  unfolding find_property
  find_property-has_name [] ours away = refl
  find_property-has_name (e ∷ es) ours away = ground (arith, find_property-has_name es)

  insert_all_lem :
      (es : List (PropertyEntry S)) (d : List (String × Variant)) {d' : List (String × Variant)}
      → are_of i es ≡ true
      → are_distinct es ≡ true
      → insert_all i p es d ≡ some d'
      → answered (lookup n d')
        ≡ (if has_name n es then get_found (find_property i n es) p else answered (lookup n d))
  unfolding insert_all find_property
  insert_all_lem [] d ours apart h = cc
  insert_all_lem (e ∷ es) d {d'} ours apart h = elim (Option-cases (e.get_func p)) [
    | inl failed ↦ absurd (ground arith)
    | inr (v, value) ↦
        let rest =
          insert_all_lem es (insert_value e.property_name v d) {d' = d'} (ground arith)
            (ground arith) (ground arith) in
        let mine : str_eq e.interface_name i ≡ true = ground arith in
        let put = lookup-insert_value n e.property_name v d in
        elim (Bool-cases (str_eq e.property_name n)) [
          | inl here ↦
              let eq : e.property_name ≡ n = (eq_iff e.property_name n).0 here in
              let last : has_name n es ≡ false =
                subst (λ m. has_name m es ≡ false) eq (ground arith) in
              rest ∙ rw (last, put, here, mine, value) refl
          | inr there ↦ rest ∙ rw (put, there, mine) refl
        ]
  ]

table_of :
    {S : Type 0} (P : Provider S)
    → (are_of payg_interface (manager_properties P) ≡ true)
      × (are_distinct (manager_properties P) ≡ true)
table_of P = (refl, refl)

module _ (is_interface_name : String → Bool) {S : Type 0} (P : Provider S) (p : S) where
  -- If GetAll of com.endlessm.Payg1 returns a dictionary, Get of any property returns the value
  -- that the dictionary has for its name, and the error of an unknown property if it has none.
  pub get_all-get :
      (n : String) {d : List (String × Variant)}
      → properties_get_all is_interface_name P payg_interface p ≡ some (return_dict d)
      → properties_get is_interface_name P payg_interface n p ≡ answered (lookup n d)
  unfolding properties_get_all properties_get lookup
  get_all-get n {d} h = elim (Bool-cases (is_interface_name payg_interface)) [
    | inr bad ↦ absurd (ground arith)
    | inl good ↦ elim (Option-cases (insert_all payg_interface p (manager_properties P) [])) [
      | inl failed ↦ absurd (ground arith)
      | inr (d', made) ↦
          let whole : properties_get_all is_interface_name P payg_interface p
              ≡ some (return_dict d') =
            rw (good, made) refl in
          let same : d ≡ d' = cc in
          let r = insert_all_lem payg_interface p n (manager_properties P) [] refl refl made in
          rw (same, good)
            (elim (Bool-cases (has_name n (manager_properties P))) [
              | inl has ↦ sym (r ∙ rw (has) refl)
              | inr away ↦
                  rw (find_property-has_name payg_interface p n (manager_properties P) refl away)
                    (sym (r ∙ rw (away) refl))
            ])
    ]
  ]

  set_found_lem :
      (i n : String) (v : Variant) (es : List (PropertyEntry S))
      → All (λ e. e.set_func ≡ none) es
      → (e : DbusError) × (set_found (find_property i n es) v p ≡ some (p, return_error e))
        × ((e ≡ property_read_only) ⊎ ((e ≡ unknown_property) × (find_property i n es ≡ none)))
  unfolding find_property
  set_found_lem i n v [] fixed = (unknown_property, refl, inr (refl, refl))
  set_found_lem i n v (e ∷ es) (here, fixed) = elim (Bool-cases (is_property i n e)) [
    | inl found ↦ (property_read_only, rw (found, here) refl, inl refl)
    | inr other ↦ rw (other) (set_found_lem i n v es fixed)
  ]

  -- Set leaves the provider as it is and returns an error for every interface, property and value:
  -- that the property is read-only, or else the error that Get returns.
  pub properties_set_lem :
      (i n : String) (v : Variant)
      → (e : DbusError) × (properties_set is_interface_name P i n v p ≡ some (p, return_error e))
        × ((e ≡ property_read_only)
            ⊎ (properties_get is_interface_name P i n p ≡ some (return_error e)))
  unfolding properties_set properties_get
  properties_set_lem i n v = elim (Bool-cases (is_interface_name i)) [
    | inr bad ↦ (unknown_interface, rw (bad) refl, inr (rw (bad) refl))
    | inl good ↦
        let (e, done, kind) =
          set_found_lem i n v (manager_properties P)
            (refl, (refl, (refl, (refl, (refl, (refl, (refl, (refl, tt)))))))) in
        (
          e,
          rw (good) done,
          elim kind [
            | inl fixed ↦ inl fixed
            | inr (unknown, missing) ↦ inr (rw (good, missing, unknown) refl)
          ],
        )
  ]
