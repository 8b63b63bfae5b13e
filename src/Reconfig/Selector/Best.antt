-- ===== src/Reconfig/Selector/Best.antt =====
-- The configuration that is chosen.
use kube_comp_mig.Prelude.{
  ℕ, ◌≤◌, String, false, ◌≡◌, ◌≢◌, ◌⊎◌, inl, inr, refl, sym, ap, ◌∙◌, subst, List, [], ◌∷◌, arith,
  All, Member, Any-All, All-Member, All-weaken, All-zip, Member-All, eq_iff,
}
use kube_comp_mig.Prelude.Integers.{ℤ, pos, gtb}
use kube_comp_mig.Prelude.Maps.{
  Map, string_eq, insert, All-insert, HasKey, insert-HasKey, HasKey-insert,
}
use kube_comp_mig.Prelude.Outcomes.{Outcome, ok, err}
use kube_comp_mig.Reconfig.Config.{MigConfigs}
use kube_comp_mig.Reconfig.Selector.{
  Pod, config_score, fill_scores, get_best_config_score, pick, named, get_best_config,
}
use kube_comp_mig.Reconfig.Selector.Score.{disturbed, better-disturbed}
use kube_comp_mig.Reconfig.Selector.Pick.{pick-Highest, pick_first}
use kube_comp_mig.Reconfig.Selector.Filter.{LongNames, Candidate, filter-Candidate}

module _ (configs : MigConfigs) (location : Map ℕ (List Pod)) (current : String) where
  abbrev score : String → ℤ
  score c = config_score configs location current c

  -- The entry of a candidate with its score.
  abbrev Scored : List String → String × ℤ → Type 0
  Scored candidates e = Member e.0 candidates × (e.1 ≡ score e.0)

  fill_scores-Scored :
      (all cs : List String) (scores : Map String ℤ)
      → All (λ c. Member c all) cs
      → All (Scored all) scores
      → All (Scored all) (fill_scores configs location current cs scores)
  unfolding fill_scores
  fill_scores-Scored all [] scores members h = h
  fill_scores-Scored all (c ∷ cs) scores (m, members) h =
      fill_scores-Scored all cs (insert c (score c) scores) members
        (All-insert (Scored all) c (score c) scores (m, refl) h)

  fill_scores-HasKey :
      (cs : List String) (scores : Map String ℤ) (c : String)
      → Member c cs ⊎ HasKey c scores
      → HasKey c (fill_scores configs location current cs scores)
  unfolding fill_scores
  fill_scores-HasKey [] scores c (inl h) = absurd h
  fill_scores-HasKey [] scores c (inr h) = h
  fill_scores-HasKey (d ∷ cs) scores c (inl (inl e)) =
      fill_scores-HasKey cs (insert d (score d) scores) c (
        inr
          (subst (λ x. HasKey x (insert d (score d) scores)) e (insert-HasKey d (score d) scores)))
  fill_scores-HasKey (d ∷ cs) scores c (inl (inr m)) =
      fill_scores-HasKey cs (insert d (score d) scores) c (inl m)
  fill_scores-HasKey (d ∷ cs) scores c (inr h) =
      fill_scores-HasKey cs (insert d (score d) scores) c
        (inr (HasKey-insert c d (score d) scores h))

  members-All : (cs : List String) → All (λ c. Member c cs) cs
  members-All [] = tt
  members-All (c ∷ cs) = (inl refl, All-weaken cs (λ a m. inr m) (members-All cs))

  -- A best name among the candidates, or an error where there is no candidate.
  abbrev Chosen : List String → Outcome String → Type 0
  Chosen candidates o =
      ((name : String) × (o ≡ ok name)
        × Member name candidates
        × ((c : String)
            → Member c candidates
            → disturbed configs location current name ≤ disturbed configs location current c))
      ⊎ ((o ≡ err "Config not found.") × ((c : String) → Member c candidates → ⊥))

  named-ok : (name : String) → name ≢ "" → named name ≡ ok name
  unfolding named
  named-ok name h = ground (arith, eq_iff name "")

  nothing_picked : named (pick [] ("", pos 0)).0 ≡ err "Config not found."
  unfolding named pick
  nothing_picked = refl

  no_better :
      (candidates : List String) (c : String) (best : String × ℤ)
      → best.1 ≡ score best.0
      → (scores : Map String ℤ) → HasKey c scores
      → All (λ e. (gtb e.1 best.1 ≡ false) × Scored candidates e) scores
      → gtb (score c) (score best.0) ≡ false
  no_better candidates c best own scores has all =
      let ((d, z), same, (below, (m, e))) = Any-All scores has all in
      ap (λ x. gtb x (score best.0)) (ap score (sym same) ∙ sym e) ∙ ap (gtb z) (sym own) ∙ below

  pick-Chosen :
      (candidates : List String) (scores : Map String ℤ)
      → All (λ c. c ≢ "") candidates
      → All (Scored candidates) scores
      → ((c : String) → Member c candidates → HasKey c scores)
      → Chosen candidates (named (pick scores ("", pos 0)).0)
  pick-Chosen candidates [] names scored has = inr (nothing_picked, λ c m. has c m)
  pick-Chosen candidates (e ∷ rest) names (se, scored) has =
      let best = pick rest e in
      let member_name =
        λ (x : String) (m : Member x candidates). All-Member (λ c. c ≢ "") x candidates names m in
      let (from, over, all) =
        pick-Highest rest e (member_name e.0 se.0)
          (All-weaken rest (λ x s. member_name x.0 s.0) scored) in
      let sb : Scored candidates best = elim from [
        | inl p ↦ subst (Scored candidates) (sym p) se
        | inr m ↦ All-Member (Scored candidates) best rest scored m
      ] in
      inl (
        best.0,
        ap (λ x. named x.0) (pick_first e rest) ∙ named-ok best.0 (member_name best.0 sb.0),
        sb.0,
        λ c m. better-disturbed configs location current c best.0 (
            no_better candidates c best sb.1 (e ∷ rest) (has c m) (
              All-zip (λ x. gtb x.1 best.1 ≡ false) (Scored candidates) (e ∷ rest) (over, all)
                (se, scored))),
      )

  choice-Chosen :
      (candidates : List String)
      → All (λ c. c ≢ "") candidates
      → Chosen candidates
          (named (pick (get_best_config_score configs location current candidates) ("", pos 0)).0)
  unfolding get_best_config_score
  choice-Chosen candidates names =
      pick-Chosen candidates (fill_scores configs location current candidates []) names
        (fill_scores-Scored candidates candidates [] (members-All candidates) tt)
        (λ c m. fill_scores-HasKey candidates [] c (inl m))

named-Candidate :
    (configs : MigConfigs) (requests : Map String ℕ) (long : LongNames requests) (c : String)
    → All (λ p. p.0 ≢ "") configs
    → Candidate requests long c configs
    → c ≢ ""
named-Candidate configs requests long c names h =
    let (p, (same, enough), ne) = Any-All configs h names in λ e. ne (same ∙ e)

-- For requests whose names reach past "nvidia.com/mig-" and configurations whose names are not empty:
-- either the choice is a configuration that has enough slices for all requests, and no configuration
-- that has enough touches GPUs with fewer entries in the pod locations, where a pod counts as often as
-- it stands there; or no configuration has enough, and the choice is an error.
pub get_best_config-Chosen :
    (configs : MigConfigs) (requests : Map String ℕ) (location : Map ℕ (List Pod))
    (current : String) (long : LongNames requests)
    → All (λ p. p.0 ≢ "") configs
    → ((name : String) × (get_best_config configs requests location current ≡ ok name)
        × Candidate requests long name configs
        × ((c : String)
            → Candidate requests long c configs
            → disturbed configs location current name ≤ disturbed configs location current c))
      ⊎ ((get_best_config configs requests location current ≡ err "Config not found.")
          × ((c : String) → Candidate requests long c configs → ⊥))
unfolding get_best_config
get_best_config-Chosen configs requests location current long names =
    let (candidates, e, member) = filter-Candidate configs requests long in
    let chosen = choice-Chosen configs location current candidates (
      Member-All candidates
        (λ c m. named-Candidate configs requests long c names ((member c).0 m))) in
    rw (e) (elim chosen [
      | inl (name, eq, m, least) ↦
          inl (name, eq, (member name).0 m, λ c k. least c ((member c).1 k))
      | inr (eq, none_fits) ↦ inr (eq, λ c k. none_fits c ((member c).1 k))
    ])
