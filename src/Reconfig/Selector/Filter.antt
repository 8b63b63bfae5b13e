-- ===== src/Reconfig/Selector/Filter.antt =====
-- The candidates are the configurations that have enough slices.
use kube_comp_mig.Prelude.{
  ℕ, ◌+◌, ◌*◌, ◌≤◌, String, Bool, true, false, ◌≡◌, ◌↔◌, inl, inr, refl, ap, ◌∙◌, List, [], ◌∷◌,
  length, arith, All, Any, Member, Member-if, Bool-cases, ltb, ltb→lt, if◌then◌else◌,
}
use kube_comp_mig.Prelude.Maps.{Map, string_eq, or_default, lookup}
use kube_comp_mig.Prelude.Text.{slice_from}
use kube_comp_mig.Prelude.Outcomes.{Outcome, ok}
use kube_comp_mig.Reconfig.Config.{MigConfig, MigConfigs}
use kube_comp_mig.Reconfig.Selector.{prefix_length, count_slices, fits, get_best_config_filter}

-- How many slices of a name a configuration has, over all its devices.
abbrev pub supply : String → List MigConfig → ℕ
supply name [] = 0
supply name (m ∷ ms) = or_default 0 (lookup name m.mig_devices) * length m.devices + supply name ms

-- Every requested resource has a name past the prefix.
abbrev pub LongNames : Map String ℕ → Type 0
LongNames requests = All (λ r. (name : String) × (slice_from prefix_length r.0 ≡ ok name)) requests

-- The configuration has as many slices as are requested.
abbrev pub Suffices : (requests : Map String ℕ) → LongNames requests → List MigConfig → Type 0
Suffices [] long ms = Unit
Suffices (r ∷ rest) ((name, e), long) ms = (r.1 ≤ supply name ms) × Suffices rest long ms

count_slices-supply :
    (request name : String) (ms : List MigConfig) (cnt : ℕ)
    → slice_from prefix_length request ≡ ok name
    → count_slices request ms cnt ≡ ok (cnt + supply name ms)
unfolding count_slices
count_slices-supply request name [] cnt e = ap ok (omega arith)
count_slices-supply request name (m ∷ ms) cnt e =
    rw (e) (count_slices-supply request name ms _ e ∙ ap ok (omega arith))

enough_or_not :
    (wanted n : ℕ) (later : Outcome Bool) (X : Type 0)
    → (b : Bool) × (later ≡ ok b) × ((b ≡ true) ↔ X)
    → (b : Bool) × ((if ltb (0 + n) wanted then ok false else later) ≡ ok b)
      × ((b ≡ true) ↔ (wanted ≤ n) × X)
enough_or_not wanted n later X (b, e, f) = elim (Bool-cases (ltb (0 + n) wanted)) [
  | inl h ↦
      (false, rw (h) refl, (λ k. cc, λ p. absurd (omega (arith, ltb→lt (0 + n) wanted h, p.0))))
  | inr h ↦ (b, rw (h) e, (λ k. (ground arith, f.0 k), λ p. f.1 p.1))
]

pub fits-Suffices :
    (requests : Map String ℕ) (ms : List MigConfig) (long : LongNames requests)
    → (b : Bool) × (fits requests ms ≡ ok b) × ((b ≡ true) ↔ Suffices requests long ms)
unfolding fits
fits-Suffices [] ms long = (true, refl, (λ h. tt, λ h. refl))
fits-Suffices ((request, wanted) ∷ rest) ms ((name, e), long) =
    rw (count_slices-supply request name ms 0 e) (
      enough_or_not wanted (supply name ms) (fits rest ms) (Suffices rest long ms)
        (fits-Suffices rest ms long))

-- A profile of this name has enough slices.
abbrev pub Candidate : (requests : Map String ℕ) → LongNames requests → String → MigConfigs → Type 0
Candidate requests long name configs = Any (λ p. (p.0 ≡ name) × Suffices requests long p.1) configs

pub filter-Candidate :
    (configs : MigConfigs) (requests : Map String ℕ) (long : LongNames requests)
    → (names : List String) × (get_best_config_filter configs requests ≡ ok names)
      × ((c : String) → Member c names ↔ Candidate requests long c configs)
unfolding get_best_config_filter
filter-Candidate [] requests long = ([], refl, λ c. (λ h. h, λ h. h))
filter-Candidate ((profile, ms) ∷ rest) requests long =
    let (b, e, f) = fits-Suffices requests ms long in
    let (names, k, g) = filter-Candidate rest requests long in
    (
      if b then profile ∷ names else names,
      rw (e, k) refl,
      λ c. Member-if b profile c names _ _ f (g c),
    )
