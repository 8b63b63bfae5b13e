-- ===== src/Scheduler/Demand/Kinds.antt =====
-- The entries of the map of the requested slices.
use kube_comp_mig.Prelude.{
  ℕ, ◌<◌, ◌≡◌, refl, sym, ap, ◌∙◌, subst, ◌↔◌, ◌⊎◌, inl, inr, true, false, String, Option, none,
  some, List, [], ◌∷◌, All, Any, Any-All, All-weaken, Member, Member-All, Member-Any, str_eq,
  eq_iff, Bool, All-zip, Bool-cases, if◌then◌else◌,
}
use kube_comp_mig.Prelude.Integers.{ℤ, pos}
use kube_comp_mig.Prelude.Maps.{
  Map, string_eq, or_default, lookup, insert, lookup-insert, All-insert, HasKey, insert-HasKey,
  HasKey-insert,
}
use kube_comp_mig.Prelude.Outcomes.{ok}
use kube_comp_mig.Scheduler.Demand.{NodeInfo, Ignored, Demand, scalar_loop}
use kube_comp_mig.Scheduler.Demand.Asked.{slice_of, asked, noted, noted_all, onto}
use kube_comp_mig.Scheduler.Demand.Summed.{scalar_loop-asked}
use kube_comp_mig.Scheduler.Demand.Numbers.{number_asked, scalar_loop-number}

-- No key has two entries.
abbrev DistinctKeys : Map String ℤ → Type 0
DistinctKeys [] = Unit
DistinctKeys ((k, v) ∷ m) = (lookup k m ≡ none) × DistinctKeys m

none_ne : {v : ℤ} → none ≡ some v → ⊥
none_ne h = cc

insert-DistinctKeys :
    (k : String) (v : ℤ) (m : Map String ℤ) → DistinctKeys m → DistinctKeys (insert k v m)
unfolding insert lookup
insert-DistinctKeys k v [] h = (refl, tt)
insert-DistinctKeys k v ((i, w) ∷ m) (h, hs) = elim (Bool-cases (str_eq i k)) [
  | inl e ↦ rw (e) (ap (λ x. lookup x m) (sym ((eq_iff i k).0 e)) ∙ h, hs)
  | inr e ↦ rw (e) (other (Bool-cases (str_eq k i)) e, insert-DistinctKeys k v m hs)
]
  where
    ne : {b : Bool} → b ≡ true → b ≡ false → ⊥
    ne p q = cc

    other :
        (str_eq k i ≡ true) ⊎ (str_eq k i ≡ false)
        → str_eq i k ≡ false
        → lookup i (insert k v m) ≡ none
    other (inl f) e = absurd (ne ((eq_iff i k).1 (sym ((eq_iff k i).0 f))) e)
    other (inr f) e = lookup-insert k i v m ∙ ap (λ b. if b then some v else lookup i m) f ∙ h

noted_all-DistinctKeys :
    (ignored : Ignored) (scalars : Map String ℕ) (m : Map String ℤ)
    → DistinctKeys m
    → DistinctKeys (noted_all ignored scalars m)
noted_all-DistinctKeys ignored [] m h = h
noted_all-DistinctKeys ignored (e ∷ rest) m h =
    noted_all-DistinctKeys ignored rest (noted (slice_of ignored e) e.1 m)
      (one (slice_of ignored e) e.1)
  where
    one : (o : Option String) (q : ℕ) → DistinctKeys (noted o q m)
    one none q = h
    one (some slice) q = insert-DistinctKeys slice _ m h

-- Every entry is the one that is read under its key.
entries_read : (m : Map String ℤ) → DistinctKeys m → All (λ p. lookup p.0 m ≡ some p.1) m
unfolding lookup
entries_read [] h = tt
entries_read ((k, v) ∷ m) (h, hs) =
    let same : str_eq k k ≡ true = (eq_iff k k).1 refl in
    (
      ap (λ b. if b then some v else lookup k m) same,
      All-weaken m (λ p e. later p.0 p.1 e (Bool-cases (str_eq k p.0))) (entries_read m hs),
    )
  where
    later :
        (j : String) (w : ℤ)
        → lookup j m ≡ some w
        → (str_eq k j ≡ true) ⊎ (str_eq k j ≡ false)
        → (if str_eq k j then some v else lookup j m) ≡ some w
    later j w e (inl f) = absurd (none_ne (sym h ∙ ap (λ x. lookup x m) ((eq_iff k j).0 f) ∙ e))
    later j w e (inr f) = rw (f) e

-- The keys are the slices that are asked for.
noted_all-keys :
    (ignored : Ignored) (scalars : Map String ℕ) (m : Map String ℤ) (Q : String → Type 0)
    → All (λ p. Q p.0) m
    → ((s : String) → Member s (asked ignored scalars) → Q s)
    → All (λ p. Q p.0) (noted_all ignored scalars m)
noted_all-keys ignored [] m Q h k = h
noted_all-keys ignored (e ∷ rest) m Q h k =
    let (first, later) = one (slice_of ignored e) e.1 k in
    noted_all-keys ignored rest (noted (slice_of ignored e) e.1 m) Q first later
  where
    one :
        (o : Option String) (q : ℕ)
        → ((s : String) → Member s (onto o (asked ignored rest)) → Q s)
        → All (λ p. Q p.0) (noted o q m) × ((s : String) → Member s (asked ignored rest) → Q s)
    one none q k = (h, k)
    one (some slice) q k =
        (All-insert (λ p. Q p.0) slice _ m (k slice (inl refl)) h, λ s l. k s (inr l))

noted_all-HasKey :
    (ignored : Ignored) (scalars : Map String ℕ) (m : Map String ℤ) (s : String)
    → Member s (asked ignored scalars) ⊎ HasKey s m
    → HasKey s (noted_all ignored scalars m)
noted_all-HasKey ignored [] m s (inl h) = absurd h
noted_all-HasKey ignored [] m s (inr h) = h
noted_all-HasKey ignored (e ∷ rest) m s h =
    noted_all-HasKey ignored rest (noted (slice_of ignored e) e.1 m) s
      (one (slice_of ignored e) e.1 h)
  where
    one :
        (o : Option String) (q : ℕ)
        → Member s (onto o (asked ignored rest)) ⊎ HasKey s m
        → Member s (asked ignored rest) ⊎ HasKey s (noted o q m)
    one none q h = h
    one (some slice) q (inl (inl f)) =
        inr (subst (λ x. HasKey x (noted (some slice) q m)) f (insert-HasKey slice _ m))
    one (some slice) q (inl (inr l)) = inl l
    one (some slice) q (inr l) = inr (HasKey-insert s slice _ m l)

-- Where the entries have the numbers of their keys, one entry with a property is one key with it.
Any-entry :
    (number : String → ℤ) (keys : List String) (P : String → ℤ → Type 0) (m : Map String ℤ)
    → All (λ p. (p.1 ≡ number p.0) × Member p.0 keys) m
    → ((s : String) → Member s keys → HasKey s m)
    → Any (λ p. P p.0 p.1) m ↔ Any (λ s. P s (number s)) keys
Any-entry number keys P m counted has = (
  λ h.
      let (p, q, (e, l)) = Any-All m h counted in
      Member-Any (λ s. P s (number s)) p.0 keys l (subst (P p.0) e q),
  λ h. let (s, q, l) = Any-All keys h (Member-All keys (λ s l. has s l)) in at_key m s counted l q,
)
  where
    at_key :
        (m : Map String ℤ) (s : String)
        → All (λ p. (p.1 ≡ number p.0) × Member p.0 keys) m
        → HasKey s m
        → P s (number s)
        → Any (λ p. P p.0 p.1) m
    at_key [] s c l q = absurd l
    at_key (p ∷ m) s ((e, _), c) (inl f) q =
        inl (subst (P p.0) (sym e) (subst (λ x. P x (number x)) (sym f) q))
    at_key (p ∷ m) s (_, c) (inr l) q = inr (at_key m s c l q)

-- For numbers below 2^63, an entry of the map that the loop over the scalar resources leaves has a
-- property exactly where a slice that is asked for has it with its number.
pub slices-asked :
    (ignored : Ignored) (node : NodeInfo) (scalars : Map String ℕ) (d e : Demand)
    (P : String → ℤ → Type 0)
    → scalar_loop ignored node scalars d ≡ ok e
    → d.slices ≡ []
    → ((s : String) → number_asked ignored s scalars < 9223372036854775808)
    → Any (λ p. P p.0 p.1) e.slices
      ↔ Any (λ s. P s (pos (number_asked ignored s scalars))) (asked ignored scalars)
unfolding lookup
slices-asked ignored node scalars d e P h z small =
    let same : e.slices ≡ noted_all ignored scalars [] =
      (scalar_loop-asked ignored node scalars d e h).2 ∙ ap (noted_all ignored scalars) z in
    let distinct : DistinctKeys e.slices =
      subst DistinctKeys (sym same) (noted_all-DistinctKeys ignored scalars [] tt) in
    let keys : All (λ p. Member p.0 (asked ignored scalars)) e.slices =
      subst (All (λ p. Member p.0 (asked ignored scalars))) (sym same)
        (noted_all-keys ignored scalars [] (λ s. Member s (asked ignored scalars)) tt (λ s l. l)) in
    let numbers : All (λ p. p.1 ≡ pos (number_asked ignored p.0 scalars)) e.slices =
      All-weaken e.slices
        (λ p r.
          ap (or_default (pos 0)) (sym r)
          ∙ scalar_loop-number ignored node scalars d e p.0 h (ap (lookup p.0) z) (small p.0))
        (entries_read e.slices distinct) in
    Any-entry (λ s. pos (number_asked ignored s scalars)) (asked ignored scalars) P e.slices
      (All-zip (λ p. p.1 ≡ pos (number_asked ignored p.0 scalars))
        (λ p. Member p.0 (asked ignored scalars)) e.slices numbers keys)
      (λ s l. subst (HasKey s) (sym same) (noted_all-HasKey ignored scalars [] s (inl l)))
