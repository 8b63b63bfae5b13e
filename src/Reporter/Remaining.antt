-- ===== src/Reporter/Remaining.antt =====
-- Where the label of the largest free slice comes from.
use kube_comp_mig.Prelude.{
  ℕ, ◌-◌, ◌*◌, String, Bool, true, false, not, ◌≡◌, ◌⊎◌, inl, inr, refl, subst, Option, none, some,
  List, [], ◌∷◌, length, All, Any, Member-All, Member-Any, ltb, str_eq, if◌then◌else◌, eq_iff,
}
use kube_comp_mig.Prelude.Maps.{Map, string_eq, or_default, lookup, insert, All-insert, HasKey}
use kube_comp_mig.Prelude.Text.{codes}
use kube_comp_mig.Reconfig.Config.{MigConfig, MigConfigs}
use kube_comp_mig.Reporter.{
  enough, subtract, free_slices, before, greatest_from, last_sorted, get_max_mig_remain, set_slices,
  is_larger, better, profile_loop, max_mig_label,
}

module _ (Q : String → Type 0) where
  -- All names of the map have the property.
  abbrev Names : Map String ℕ → Type 0
  Names profile = All (λ e. Q e.0) profile

  -- The empty text, or a name that has the property.
  abbrev Label : String → Type 0
  Label s = (s ≡ "") ⊎ Q s

  lookup-Names : (k : String) (v : ℕ) (m : Map String ℕ) → Names m → lookup k m ≡ some v → Q k
  unfolding lookup
  lookup-Names k v [] names e = cc
  lookup-Names k v ((j, w) ∷ m) (q, names) e =
      found (str_eq j k) (eq_iff j k).0 e (lookup-Names k v m names)
    where
      found :
          (b : Bool)
          → (b ≡ true → j ≡ k)
          → (if b then some w else lookup k m) ≡ some v
          → (lookup k m ≡ some v → Q k)
          → Q k
      found true same e later = subst Q (same refl) q
      found false same e later = later e

  set_slices-Names :
      (devices : ℕ) (slices profile : Map String ℕ)
      → All (λ e. Q e.0) slices
      → Names profile
      → Names (set_slices devices slices profile)
  unfolding set_slices
  set_slices-Names devices [] profile h names = names
  set_slices-Names devices ((mig, cnt) ∷ rest) profile (q, h) names =
      set_slices-Names devices rest (insert mig (cnt * devices) profile) h
        (All-insert (λ e. Q e.0) mig (cnt * devices) profile q names)

  reduced :
      (wanted : ℕ) (o : Option ℕ) (profile : Map String ℕ) (later : Map String ℕ × Bool)
      → Names profile
      → ((v : ℕ) → o ≡ some v → Names later.0)
      → Names (if enough wanted o then later else (profile, false)).0
  unfolding enough
  reduced wanted none profile later names f = names
  reduced wanted (some have) profile later names f = either (ltb have wanted)
    where
      either : (b : Bool) → Names (if not b then later else (profile, false)).0
      either true = names
      either false = f have refl

  subtract-Names :
      (requests profile : Map String ℕ) → Names profile → Names (subtract requests profile).0
  unfolding subtract
  subtract-Names [] profile names = names
  subtract-Names ((mig, wanted) ∷ rest) profile names =
      let less = or_default 0 (lookup mig profile) - wanted in
      reduced wanted (lookup mig profile) profile _ names (λ v e.
        subtract-Names rest (insert mig less profile)
          (All-insert (λ x. Q x.0) mig less profile (lookup-Names mig v profile names e) names))

  free_slices-Names : (profile : Map String ℕ) → Names profile → All Q (free_slices profile)
  unfolding free_slices
  free_slices-Names [] names = tt
  free_slices-Names ((mig, have) ∷ rest) (q, names) =
      kept (ltb 0 have) (free_slices-Names rest names)
    where
      kept :
          (b : Bool)
          → All Q (free_slices rest)
          → All Q (if b then mig ∷ free_slices rest else free_slices rest)
      kept true later = (q, later)
      kept false later = later

  greatest_from-Q :
      (best : String) (ss : List String) → Q best → All Q ss → Q (greatest_from best ss)
  unfolding greatest_from
  greatest_from-Q best [] q h = q
  greatest_from-Q best (s ∷ ss) q (p, h) =
      greatest_from-Q (if before (codes best) (codes s) then s else best) ss
        (one (before (codes best) (codes s))) h
    where
      one : (b : Bool) → Q (if b then s else best)
      one true = p
      one false = q

  last_sorted-Label : (ss : List String) → All Q ss → Label (last_sorted ss)
  unfolding last_sorted
  last_sorted-Label [] h = inl refl
  last_sorted-Label (s ∷ ss) (q, h) = inr (greatest_from-Q s ss q h)

  remain-Label :
      (profile requests : Map String ℕ)
      → Names profile
      → Label (get_max_mig_remain profile requests).0
  unfolding get_max_mig_remain
  remain-Label profile requests names =
      let s = subtract requests profile in
      either s.1 _ (
        last_sorted-Label (free_slices s.0)
          (free_slices-Names s.0 (subtract-Names requests profile names)))
    where
      either : (b : Bool) (x : String) → Label x → Label (if b then x else "")
      either true x l = l
      either false x l = inl refl

  remain-Names :
      (profile requests : Map String ℕ)
      → Names profile
      → Names (get_max_mig_remain profile requests).1
  unfolding get_max_mig_remain
  remain-Names profile requests names = subtract-Names requests profile names

  better-Label : (new max : String) → Label new → Label max → Label (better new max)
  unfolding better
  better-Label new max l k = either (is_larger new max)
    where
      either : (b : Bool) → Label (if b then new else max)
      either true = l
      either false = k

  -- Every slice that an enabled entry lists has the property.
  abbrev Entries : List MigConfig → Type 0
  Entries ms = All (λ m. m.mig_enabled ≡ true → All (λ e. Q e.0) m.mig_devices) ms

  profile_loop-Label :
      (requests : Map String ℕ) (ms : List MigConfig) (profile : Map String ℕ) (max : String)
      → Entries ms
      → Names profile
      → Label max
      → Label (profile_loop requests ms profile max)
  unfolding profile_loop
  profile_loop-Label requests [] profile max entries names l = l
  profile_loop-Label requests (m ∷ ms) profile max (entry, entries) names l =
      either m.mig_enabled
        (λ on.
          profile_loop-Label requests ms r.1 (better r.0 max) entries
            (remain-Names set requests (named on))
            (better-Label r.0 max (remain-Label set requests (named on)) l))
        (profile_loop-Label requests ms profile max entries names l)
    where
      set : Map String ℕ
      set = set_slices (length m.devices) m.mig_devices profile

      r : String × Map String ℕ
      r = get_max_mig_remain set requests

      named : m.mig_enabled ≡ true → Names set
      named on = set_slices-Names (length m.devices) m.mig_devices profile (entry on) names

      either :
          (b : Bool)
          → (b ≡ true → Label (profile_loop requests ms r.1 (better r.0 max)))
          → Label (profile_loop requests ms profile max)
          → Label (
              if b
              then profile_loop requests ms r.1 (better r.0 max)
              else profile_loop requests ms profile max)
      either true f g = f refl
      either false f g = g

  max_mig_label-Label :
      (configs : MigConfigs) (requests : Map String ℕ) (max : String)
      → All (λ p. Entries p.1) configs
      → Label max
      → Label (max_mig_label configs requests max)
  unfolding max_mig_label
  max_mig_label-Label [] requests max entries l = l
  max_mig_label-Label ((name, ms) ∷ rest) requests max (entry, entries) l =
      max_mig_label-Label rest requests (profile_loop requests ms [] max) entries
        (profile_loop-Label requests ms [] max entry tt l)

-- Some enabled entry of some profile lists the slice.
abbrev pub Listed : MigConfigs → String → Type 0
Listed configs name =
    Any (λ p. Any (λ m. (m.mig_enabled ≡ true) × HasKey name m.mig_devices) p.1) configs

every_entry : (configs : MigConfigs) → All (λ p. Entries (Listed configs) p.1) configs
every_entry configs = Member-All configs (λ p pm. Member-All p.1 (λ m mm on.
    Member-All m.mig_devices (λ e em.
      Member-Any _ p configs pm
        (Member-Any _ m p.1 mm (on, Member-Any _ e m.mig_devices em refl)))))

-- The label of the largest free slice is empty or names a slice that some enabled entry of some profile
-- lists, whatever the running pods request.
pub max_mig_label-Listed :
    (configs : MigConfigs) (requests : Map String ℕ)
    → (max_mig_label configs requests "" ≡ "") ⊎ Listed configs (max_mig_label configs requests "")
max_mig_label-Listed configs requests =
    max_mig_label-Label (Listed configs) configs requests "" (every_entry configs) (inl refl)
