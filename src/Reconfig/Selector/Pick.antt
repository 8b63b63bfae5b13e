-- ===== src/Reconfig/Selector/Pick.antt =====
-- The loop that picks the best score.
use kube_comp_mig.Prelude.{
  String, Bool, true, false, ◌||◌, ◌≡◌, ◌≢◌, ◌⊎◌, inl, inr, refl, sym, ap, ◌∙◌, subst, [], ◌∷◌, All,
  Any, arith, eq_iff, str_eq, if◌then◌else◌, Bool-cases,
}
use kube_comp_mig.Prelude.Integers.{ℤ, pos, gtb, gtb_self, gtb_asym, gtb_trans}
use kube_comp_mig.Prelude.Maps.{Map}
use kube_comp_mig.Reconfig.Selector.{pick}

abbrev pub Named : Map String ℤ → Type 0
Named scores = All (λ e. e.0 ≢ "") scores

-- `best` is one of the entries, or the one that the loop starts with, and no entry scores higher.
abbrev pub Highest : String × ℤ → Map String ℤ → String × ℤ → Type 0
Highest start scores best =
    ((best ≡ start) ⊎ Any (λ e. e ≡ best) scores)
    × (gtb start.1 best.1 ≡ false)
    × All (λ e. gtb e.1 best.1 ≡ false) scores

Highest-take :
    (start e : String × ℤ) (rest : Map String ℤ) (best : String × ℤ)
    → gtb e.1 start.1 ≡ true
    → Highest e rest best
    → Highest start (e ∷ rest) best
Highest-take start e rest best h (from, over, all) = (
  elim from [ inl p ↦ inr (inl (sym p)) | inr q ↦ inr (inr q) ],
  gtb_trans start.1 e.1 best.1 (gtb_asym e.1 start.1 h) over,
  (over, all),
)

Highest-keep :
    (start e : String × ℤ) (rest : Map String ℤ) (best : String × ℤ)
    → gtb e.1 start.1 ≡ false
    → Highest start rest best
    → Highest start (e ∷ rest) best
Highest-keep start e rest best h (from, over, all) = (
  elim from [ inl p ↦ inl p | inr q ↦ inr (inr q) ],
  over,
  (gtb_trans e.1 start.1 best.1 h over, all),
)

not_empty : (name : String) → name ≢ "" → str_eq name "" ≡ false
not_empty name h = ground (arith, eq_iff name "")

pick-take :
    (e : String × ℤ) (rest : Map String ℤ) (start : String × ℤ)
    → gtb e.1 start.1 ≡ true
    → pick (e ∷ rest) start ≡ pick rest e
unfolding pick
pick-take e rest start h = ap (λ b. pick rest (if b || str_eq start.0 "" then e else start)) h

pick-keep :
    (e : String × ℤ) (rest : Map String ℤ) (start : String × ℤ)
    → gtb e.1 start.1 ≡ false
    → start.0 ≢ ""
    → pick (e ∷ rest) start ≡ pick rest start
unfolding pick
pick-keep e rest start h named =
    ap (λ b. pick rest (if b || str_eq start.0 "" then e else start)) h
    ∙ ap (λ b. pick rest (if b then e else start)) (not_empty start.0 named)

pick-nil : (start : String × ℤ) → pick [] start ≡ start
unfolding pick
pick-nil start = refl

pub pick-Highest :
    (scores : Map String ℤ) (start : String × ℤ)
    → start.0 ≢ ""
    → Named scores
    → Highest start scores (pick scores start)
pick-Highest [] start named all =
    subst (Highest start []) (sym (pick-nil start)) (inl refl, gtb_self start.1, tt)
pick-Highest (e ∷ rest) start named (n, all) = elim (Bool-cases (gtb e.1 start.1)) [
  | inl h ↦
      subst (Highest start (e ∷ rest)) (sym (pick-take e rest start h))
        (Highest-take start e rest (pick rest e) h (pick-Highest rest e n all))
  | inr h ↦
      subst (Highest start (e ∷ rest)) (sym (pick-keep e rest start h named))
        (Highest-keep start e rest (pick rest start) h (pick-Highest rest start named all))
]

-- From the empty name the loop takes the first entry.
pub pick_first : (e : String × ℤ) (rest : Map String ℤ) → pick (e ∷ rest) ("", pos 0) ≡ pick rest e
unfolding pick
pick_first e rest = ap (λ b. pick rest (if b then e else ("", pos 0))) (or_true (gtb e.1 (pos 0)))
  where
    or_true : (b : Bool) → (b || true) ≡ true
    or_true true = refl
    or_true false = refl
