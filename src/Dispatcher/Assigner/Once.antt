-- ===== src/Dispatcher/Assigner/Once.antt =====
-- The services that the Dispatcher creates.
use kube_comp_mig.Prelude.{
  ℕ, ◌≡◌, refl, sym, ◌≢◌, subst, inl, inr, Bool, true, false, some, String, List, [], ◌∷◌, str_eq,
  eq_iff, All, Member, Member-All, Bool-cases, Option-cases, ◌||◌, if◌then◌else◌,
}
use kube_comp_mig.Prelude.Calls.{and_then}
use kube_comp_mig.Prelude.Maps.{Map}
use kube_comp_mig.Prelude.Outcomes.{Outcome, ok, err, panic, running}
use kube_comp_mig.Dispatcher.{Request, ServiceSpec, decide_service}
use kube_comp_mig.Dispatcher.Assigner.{
  Call, list_services, create_service, get_service, forward, start_waiting, Cluster, service_of,
  lists, current_service, create_new_service, with_services, assign_service, with_spec,
  sequential_processor,
}

-- The names of the services that the calls have created, where Knative has accepted them.
abbrev pub created : Cluster → List Call → List String
created c [] = []
created c (create_service s ∷ h) =
    let before = created c h in if c.accepts s h then s.name ∷ before else before
created c (list_services ∷ h) = created c h
created c (get_service n ∷ h) = created c h
created c (forward n r ∷ h) = created c h
created c (start_waiting n g ∷ h) = created c h

-- No name stands twice.
abbrev pub Distinct : List String → Type 0
Distinct [] = Unit
Distinct (n ∷ ns) = All (λ m. m ≢ n) ns × Distinct ns

-- Knative lists a service after its creation.
abbrev pub ListsCreated : Cluster → Type 0
ListsCreated c =
    (h : List Call) (names : List String)
    → c.services h ≡ some names
    → (n : String) → Member n (created c h)
    → Member n names

lists-Member : (n : String) (names : List String) → Member n names → lists n names ≡ true
unfolding lists
lists-Member n [] m = absurd m
lists-Member n (s ∷ ss) (inl e) = rw ((eq_iff s n).1 e) refl
lists-Member n (s ∷ ss) (inr m) = rw (lists-Member n ss m) (or_true (str_eq s n))
  where
    or_true : (b : Bool) → (b || true) ≡ true
    or_true true = refl
    or_true false = refl

current_service-created :
    (c : Cluster) (name : String) (rs : List Request) (h : List Call)
    → created c (current_service name rs h).1 ≡ created c h
unfolding current_service
current_service-created c name [] h = refl
current_service-created c name (r ∷ rs) h = current_service-created c name rs (forward name r ∷ h)

create_new_service-Distinct :
    (c : Cluster) (spec : ServiceSpec) (group : List Request) (h : List Call)
    → Distinct (spec.name ∷ created c h)
    → Distinct (created c (create_new_service c spec group h).1)
unfolding create_new_service service_of
create_new_service-Distinct c spec group h d = elim (Bool-cases (c.accepts (service_of spec) h)) [
  | inl e ↦ rw (e) (rw (e) d)
  | inr e ↦ rw (e) (rw (e) d.1)
]

assign_service-Distinct :
    (c : Cluster) (spec : ServiceSpec) (group : List Request) (h : List Call)
    → ListsCreated c
    → Distinct (created c h)
    → Distinct (created c (assign_service c spec group h).1)
unfolding assign_service with_services
assign_service-Distinct c spec group h l d = elim (Option-cases (c.services h)) [
  | inl e ↦ rw (e) d
  | inr (names, e) ↦ elim (Bool-cases (lists spec.name names)) [
    | inl t ↦
        rw (e, t)
          (subst Distinct (sym (current_service-created c spec.name group (list_services ∷ h))) d)
    | inr f ↦
        rw (e, f) (create_new_service-Distinct c spec group (list_services ∷ h) (fresh names e f))
  ]
]
  where
    fresh :
        (names : List String)
        → c.services h ≡ some names
        → lists spec.name names ≡ false
        → Distinct (spec.name ∷ created c h)
    fresh names e f = (Member-All (created c h) (λ m k same. apart m k same), d)
      where
        clash : {b : Bool} → b ≡ true → b ≡ false → ⊥
        clash h k = cc

        apart : (m : String) → Member m (created c h) → m ≡ spec.name → ⊥
        apart m k same =
            clash
              (lists-Member spec.name names (subst (λ n. Member n names) same (l h names e m k))) f

with_spec-Distinct :
    (c : Cluster) (spec : Outcome ServiceSpec) (group : List Request) (h : List Call)
    → ListsCreated c
    → Distinct (created c h)
    → Distinct (created c (with_spec c spec group h).1)
unfolding with_spec
with_spec-Distinct c (ok spec) group h l d = assign_service-Distinct c spec group h l d
with_spec-Distinct c (err e) group h l d = d
with_spec-Distinct c panic group h l d = d
with_spec-Distinct c running group h l d = d

-- Where Knative lists every service after its creation, the Dispatcher creates no service twice,
-- whatever the groups are, if none was created twice before.
pub created-Distinct :
    (c : Cluster) (nodes : List (Map String ℕ)) (groups : List (List Request)) (h : List Call)
    → ListsCreated c
    → Distinct (created c h)
    → Distinct (created c (sequential_processor c nodes groups h).1)
unfolding sequential_processor
created-Distinct c nodes [] h l d = d
created-Distinct c nodes (g ∷ gs) h l d =
    after (with_spec c (decide_service nodes g) g h).0 (with_spec c (decide_service nodes g) g h).1
      (with_spec-Distinct c (decide_service nodes g) g h l d)
      (λ k e. created-Distinct c nodes gs k l e)
  where
    after :
        (o : Outcome Unit) (k : List Call)
        → Distinct (created c k)
        → ((k : List Call)
            → Distinct (created c k)
            → Distinct (created c (sequential_processor c nodes gs k).1))
        → Distinct (created c (and_then o (λ _. sequential_processor c nodes gs) k).1)
    after (ok tt) k e f = f k e
    after (err m) k e f = e
    after panic k e f = e
    after running k e f = e
