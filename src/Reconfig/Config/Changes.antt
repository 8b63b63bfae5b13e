-- ===== src/Reconfig/Config/Changes.antt =====
-- Which GPUs a change of the configuration touches.
use kube_comp_mig.Prelude.{
  ℕ, String, Bool, true, false, ◌≡◌, ◌≢◌, ◌↔◌, ◌⊎◌, inl, inr, refl, [], ◌∷◌, Any, Member, Member-if,
  not, ◌||◌, ==_iff,
}
use kube_comp_mig.Prelude.Maps.{Map, nat_eq, string_eq, or_default, lookup}
use kube_comp_mig.Reconfig.Config.{
  MigConfigs, Layout, get_config, differs, changed, get_reconfig_gpu,
}

-- How many slices of a name a GPU has in a layout.
abbrev pub slices : Layout → ℕ → String → ℕ
slices config id key = or_default 0 (lookup key (or_default [] (lookup id config)))

-- The new slices of a GPU have a name whose count is another one in the old layout.
abbrev pub Changed : Layout → ℕ → Map String ℕ → Type 0
Changed old id config = Any (λ (key, val). val ≢ slices old id key) config

or_else :
    {X Y : Type 0} (t b : Bool)
    → ((t ≡ true) ↔ X)
    → ((b ≡ true) ↔ Y)
    → ((not t || b) ≡ true) ↔ ((X → ⊥) ⊎ Y)
or_else true b f g =
    (λ h. inr (g.0 h), λ h. elim h [ inl n ↦ absurd (n (f.0 refl)) | inr y ↦ g.1 y ])
or_else false b f g = (λ h. inl (λ x. ne (f.1 x)), λ h. refl)
  where
    ne : false ≡ true → ⊥
    ne e = cc

differs-Changed :
    (old : Layout) (id : ℕ) (config : Map String ℕ)
    → (differs (or_default [] (lookup id old)) config ≡ true) ↔ Changed old id config
unfolding differs
differs-Changed old id [] = (λ h. cc, λ h. absurd h)
differs-Changed old id ((key, val) ∷ rest) =
    or_else _ _ (==_iff val (slices old id key)) (differs-Changed old id rest)

-- An entry of the layout has this number and is changed.
abbrev pub Touched : Layout → Layout → ℕ → Type 0
Touched old new id = Any (λ (i, config). (i ≡ id) × Changed old i config) new

changed-Touched : (old new : Layout) (id : ℕ) → Member id (changed old new) ↔ Touched old new id
unfolding changed
changed-Touched old [] id = (λ h. h, λ h. h)
changed-Touched old ((i, config) ∷ rest) id =
    Member-if _ i id (changed old rest) _ _ (differs-Changed old i config)
      (changed-Touched old rest id)

-- A GPU is reconfigured exactly if the new configuration lists a slice for it whose count differs from
-- the old one's, which is 0 where the old configuration has no such slice or no such GPU. A slice that
-- only the old configuration has does not count.
pub get_reconfig_gpu-Touched :
    (configs : MigConfigs) (old new : String) (id : ℕ)
    → Member id (get_reconfig_gpu configs old new)
      ↔ Touched (get_config configs old) (get_config configs new) id
unfolding get_reconfig_gpu
get_reconfig_gpu-Touched configs old new id =
    changed-Touched (get_config configs old) (get_config configs new) id
