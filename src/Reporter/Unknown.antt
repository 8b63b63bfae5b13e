-- ===== src/Reporter/Unknown.antt =====
-- A device whose type is not known.
use kube_comp_mig.Prelude.{
  ℕ, ◌+◌, ◌-◌, ◌*◌, ◌≡◌, refl, sym, ap, ◌∙◌, subst, ◌⊎◌, inl, inr, true, false, Bool, String, none,
  some, List, [], ◌∷◌, str_eq, eq_iff, All, Any, Bool-cases, length, if◌then◌else◌,
}
use kube_comp_mig.Prelude.Maps.{
  Map, string_eq, or_default, lookup, insert, lookup-insert, HasKey, insert-HasKey, HasKey-insert,
}
use kube_comp_mig.Prelude.Outcomes.{err}
use kube_comp_mig.Nvml.{NvLib, get_mig_device_type}
use kube_comp_mig.Reconfig.Config.{MigConfig, MigConfigs}
use kube_comp_mig.Reporter.{
  enough, subtract, get_max_mig_remain, set_slices, better, is_larger, profile_loop, max_mig_label,
}
use kube_comp_mig.Reporter.Devices.{
  PodResources, type_or_empty, count_ids, count_pods, get_request_mig,
}

-- No slice has the empty name.
abbrev pub Unnamed : Map String ℕ → Type 0
Unnamed m = lookup "" m ≡ none

abbrev pub Named : String × ℕ → Type 0
Named (mig, cnt) = str_eq mig "" ≡ false

insert-Unnamed :
    (k : String) (v : ℕ) (m : Map String ℕ)
    → str_eq k "" ≡ false
    → Unnamed m
    → Unnamed (insert k v m)
insert-Unnamed k v m h u = lookup-insert k "" v m ∙ rw (h) u

set_slices-Unnamed :
    (devices : ℕ) (migs profile : Map String ℕ)
    → All Named migs
    → Unnamed profile
    → Unnamed (set_slices devices migs profile)
unfolding set_slices
set_slices-Unnamed devices [] profile h u = u
set_slices-Unnamed devices ((mig, cnt) ∷ rest) profile (h, hs) u =
    set_slices-Unnamed devices rest _ hs (insert-Unnamed mig (cnt * devices) profile h u)

-- The loop over the requests stops at the empty name at the latest.
subtract-Unnamed :
    (requests profile : Map String ℕ)
    → HasKey "" requests
    → Unnamed profile
    → ((subtract requests profile).1 ≡ false) × Unnamed (subtract requests profile).0
unfolding subtract enough
subtract-Unnamed [] profile h u = absurd h
subtract-Unnamed ((mig, wanted) ∷ rest) profile h u = elim (Bool-cases (str_eq mig "")) [
  | inl e ↦
      let missing : lookup mig profile ≡ none =
        ap (λ k. lookup k profile) ((eq_iff mig "").0 e) ∙ u in
      rw (missing) (refl, u)
  | inr n ↦ later (enough wanted (lookup mig profile)) _ (
      subtract-Unnamed rest (insert mig (or_default 0 (lookup mig profile) - wanted) profile)
        (in_rest n h) (insert-Unnamed mig (or_default 0 (lookup mig profile) - wanted) profile n u))
]
  where
    in_rest : str_eq mig "" ≡ false → (mig ≡ "") ⊎ HasKey "" rest → HasKey "" rest
    in_rest n (inl e) = absurd (apart ((eq_iff mig "").1 e) n)
      where
        apart : {b : Bool} → b ≡ true → b ≡ false → ⊥
        apart h k = cc
    in_rest n (inr k) = k

    later :
        (b : Bool) (s : Map String ℕ × Bool)
        → (s.1 ≡ false) × Unnamed s.0
        → ((if b then s else (profile, false)).1 ≡ false)
          × Unnamed (if b then s else (profile, false)).0
    later true s r = r
    later false s r = (refl, u)

-- An entry of a profile lists no slice with the empty name.
abbrev pub EntryNamed : MigConfig → Type 0
EntryNamed m = All Named m.mig_devices

loop-blank :
    (requests : Map String ℕ) (ms : List MigConfig) (profile : Map String ℕ)
    → HasKey "" requests
    → All EntryNamed ms
    → Unnamed profile
    → profile_loop requests ms profile "" ≡ ""
unfolding profile_loop get_max_mig_remain better is_larger
loop-blank requests [] profile h n u = refl
loop-blank requests (m ∷ ms) profile h (n, ns) u =
    let start = set_slices (length m.devices) m.mig_devices profile in
    let (stopped, kept) =
      subtract-Unnamed requests start h
        (set_slices-Unnamed (length m.devices) m.mig_devices profile n u) in
    elim (Bool-cases m.mig_enabled) [
      | inl e ↦ rw (e, stopped) (loop-blank requests ms (subtract requests start).0 h ns kept)
      | inr e ↦ rw (e) (loop-blank requests ms profile h ns u)
    ]

configs_blank :
    (configs : MigConfigs) (requests : Map String ℕ)
    → HasKey "" requests
    → All (λ c. All EntryNamed c.1) configs
    → max_mig_label configs requests "" ≡ ""
unfolding max_mig_label lookup
configs_blank [] requests h n = refl
configs_blank ((name, ms) ∷ rest) requests h (n, ns) =
    rw (loop-blank requests ms [] h n refl) (configs_blank rest requests h ns)

-- The type of a device that a pod of the node uses is an error.
abbrev pub UsesUnknown : NvLib → PodResources → Type 0
UsesUnknown lib p = Any (λ id. (e : String) × (get_mig_device_type lib id ≡ err e)) p.device_ids

count_ids-kept :
    (lib : NvLib) (ids : List String) (requests : Map String ℕ)
    → HasKey "" requests
    → HasKey "" (count_ids lib ids requests)
unfolding count_ids
count_ids-kept lib [] requests h = h
count_ids-kept lib (id ∷ ids) requests h =
    count_ids-kept lib ids _
      (HasKey-insert "" (type_or_empty (get_mig_device_type lib id)) _ requests h)

count_ids-unknown :
    (lib : NvLib) (ids : List String) (requests : Map String ℕ)
    → Any (λ id. (e : String) × (get_mig_device_type lib id ≡ err e)) ids
    → HasKey "" (count_ids lib ids requests)
unfolding count_ids
count_ids-unknown lib [] requests h = absurd h
count_ids-unknown lib (id ∷ ids) requests (inl (e, f)) =
    let empty : type_or_empty (get_mig_device_type lib id) ≡ "" = ap type_or_empty f in
    count_ids-kept lib ids _ (
      subst (λ mig. HasKey "" (insert mig (or_default 0 (lookup mig requests) + 1) requests))
        (sym empty) (insert-HasKey "" _ requests))
count_ids-unknown lib (id ∷ ids) requests (inr h) = count_ids-unknown lib ids _ h

count_pods-kept :
    (lib : NvLib) (ps : List PodResources) (requests : Map String ℕ)
    → HasKey "" requests
    → HasKey "" (count_pods lib ps requests)
unfolding count_pods
count_pods-kept lib [] requests h = h
count_pods-kept lib (p ∷ ps) requests h =
    count_pods-kept lib ps _ (count_ids-kept lib p.device_ids requests h)

count_pods-unknown :
    (lib : NvLib) (ps : List PodResources) (requests : Map String ℕ)
    → Any (UsesUnknown lib) ps
    → HasKey "" (count_pods lib ps requests)
unfolding count_pods
count_pods-unknown lib [] requests h = absurd h
count_pods-unknown lib (p ∷ ps) requests (inl h) =
    count_pods-kept lib ps _ (count_ids-unknown lib p.device_ids requests h)
count_pods-unknown lib (p ∷ ps) requests (inr h) = count_pods-unknown lib ps _ h

-- When a pod of the node uses a device whose MIG type is an error, and no profile lists a slice with the
-- empty name, the label for the largest free slice of the node is empty.
pub unknown_device_blanks :
    (lib : NvLib) (configs : MigConfigs) (pods : List PodResources)
    → Any (UsesUnknown lib) pods
    → All (λ c. All EntryNamed c.1) configs
    → max_mig_label configs (get_request_mig lib (some pods)) "" ≡ ""
unfolding get_request_mig
unknown_device_blanks lib configs pods h n =
    configs_blank configs (count_pods lib pods []) (count_pods-unknown lib pods [] h) n
