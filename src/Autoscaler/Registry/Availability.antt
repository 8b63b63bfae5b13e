-- ===== src/Autoscaler/Registry/Availability.antt =====
-- What `UpdateAvailTiers` records, against the quantities that the nodes report.
use kube_comp_mig.Prelude.{
  ℕ, String, ◌≡◌, refl, sym, ap, ◌∙◌, subst, List, [], ◌∷◌, arith, str_eq, if◌then◌else◌, true,
  false, eq_iff, Bool-cases, inl, inr, ◌≢◌,
}
use mathlib.Core.Bool.{false≢true}
use kube_comp_mig.Prelude.Floats.{Float64}
use kube_comp_mig.Prelude.Maps.{Map}
use kube_comp_mig.Prelude.Outcomes.{Outcome, ok, err, panic, running}
use kube_comp_mig.Autoscaler.Resource.{
  GpuResource, normal, resource_eq, type_eq, parse_gpu_resource, normal_resource,
}
use kube_comp_mig.Autoscaler.Resource.Equality.{
  IsSized, type_eq_self, resource_eq_self, resource_eq-name, resource_eq_trans, resource_eq_symm,
  resource_eq-nan,
}
use kube_comp_mig.Autoscaler.Resource.Parsing.{parse-name, parse-IsSized}
use kube_comp_mig.Autoscaler.Registry.{
  prev_in, next_in, Node, AvailTiers, Counts, count, set_count, add_quantity, add_node, add_nodes,
  avail_of, update_avail_tiers, tiers, get_same_avail_tier, get_prev_avail_tier,
  get_next_avail_tier,
}

-- The quantity that the last entry with this name reports, or what was known before.
last_entry : String → Map String ℕ → ℕ → ℕ
last_entry name [] n = n
last_entry name ((k, v) ∷ rest) n = last_entry name rest (if str_eq k name then v else n)

last_node : String → List Node → ℕ → ℕ
unfolding last_entry
last_node name [] n = n
last_node name (node ∷ rest) n = last_node name rest (last_entry name node.allocatable n)

-- The quantity of the last listed node that reports the name; 0 where none does.
pub last_reported : String → List Node → ℕ
unfolding last_node
last_reported name nodes = last_node name nodes 0

module _ ⦃fl : Float64⦄ where
  count-set_count :
      (k r : GpuResource) (n : ℕ) (m : Counts)
      → count (set_count k n m) r ≡ (if resource_eq k r then n else count m r)
  unfolding count set_count
  count-set_count k r n [] = refl
  count-set_count k r n ((j, v) ∷ m) = ground (
    arith,
    resource_eq_trans j k r,
    resource_eq_symm j k,
    resource_eq_trans k j r,
    resource_eq_symm k r,
    resource_eq_trans j r k,
    count-set_count k r n m,
  )

  ok_inj : {a b : GpuResource} → ok a ≡ ok b → a ≡ b
  ok_inj h = cc

  unparsed_differs :
      (name : String) (r : GpuResource)
      → parse_gpu_resource r.gpu_name ≡ ok r
      → parse_gpu_resource name ≢ ok r
      → str_eq name r.gpu_name ≡ false
  unparsed_differs name r p h = elim (Bool-cases (str_eq name r.gpu_name)) [
    | inl same ↦ absurd (h (ap parse_gpu_resource ((eq_iff name r.gpu_name).0 same) ∙ p))
    | inr differ ↦ differ
  ]

  other_key :
      (name : String) (k r : GpuResource)
      → parse_gpu_resource name ≡ ok k
      → str_eq name r.gpu_name ≡ false
      → resource_eq k r ≡ false
  other_key name k r q differ = elim (Bool-cases (resource_eq k r)) [
    | inl same ↦
        let e = sym (parse-name name k q) ∙ resource_eq-name k r same in
        absurd (false≢true (sym differ ∙ (eq_iff name r.gpu_name).1 e))
    | inr ne ↦ ne
  ]

  -- One more entry of a node's status.
  count-add_quantity :
      (avail : AvailTiers) (name : String) (n : ℕ) (r : GpuResource)
      → parse_gpu_resource r.gpu_name ≡ ok r
      → IsSized r
      → (o : Outcome GpuResource) → parse_gpu_resource name ≡ o
      → count (add_quantity avail o n r.gpu_type) r
        ≡ (if str_eq name r.gpu_name then n else count (avail r.gpu_type) r)
  unfolding add_quantity
  count-add_quantity avail name n r p z (ok k) q = elim (Bool-cases (str_eq name r.gpu_name)) [
    | inl same ↦
        let e : name ≡ r.gpu_name = (eq_iff name r.gpu_name).0 same in
        let k_is_r : k ≡ r = ok_inj (sym q ∙ ap parse_gpu_resource e ∙ p) in
        rw (
          same,
          k_is_r,
          type_eq_self r.gpu_type,
          count-set_count r r n (avail r.gpu_type),
          resource_eq_self r z,
        )
    | inr differ ↦ rw differ (elim (Bool-cases (type_eq k.gpu_type r.gpu_type)) [
      | inl here ↦ rw (here, count-set_count k r n (avail r.gpu_type), other_key name k r q differ)
      | inr there ↦ rw there
    ])
  ]
  count-add_quantity avail name n r p z (err e) q = rw (unparsed_differs name r p (λ h. cc))
  count-add_quantity avail name n r p z panic q = rw (unparsed_differs name r p (λ h. cc))
  count-add_quantity avail name n r p z running q = rw (unparsed_differs name r p (λ h. cc))

  module _ (r : GpuResource) (known : parse_gpu_resource r.gpu_name ≡ ok r)
      (sized : IsSized r) where
    count-add_node :
        (avail : AvailTiers) (entries : Map String ℕ)
        → count (add_node avail entries r.gpu_type) r
          ≡ last_entry r.gpu_name entries (count (avail r.gpu_type) r)
    unfolding add_node last_entry
    count-add_node avail [] = refl
    count-add_node avail ((name, n) ∷ rest) =
        count-add_node (add_quantity avail (parse_gpu_resource name) n) rest
        ∙ ap (last_entry r.gpu_name rest)
            (count-add_quantity avail name n r known sized (parse_gpu_resource name) refl)

    count-add_nodes :
        (avail : AvailTiers) (nodes : List Node)
        → count (add_nodes avail nodes r.gpu_type) r
          ≡ last_node r.gpu_name nodes (count (avail r.gpu_type) r)
    unfolding add_nodes last_node
    count-add_nodes avail [] = refl
    count-add_nodes avail (node ∷ rest) =
        count-add_nodes (add_node avail node.allocatable) rest
        ∙ ap (last_node r.gpu_name rest) (count-add_node avail node.allocatable)

  -- The availability of a slice is what the last listed node that reports its name says. So a node
  -- hides the slices of the nodes before it: the registry holds no sum over the nodes.
  pub avail-last_reported :
      (nodes : List Node) (r : GpuResource)
      → parse_gpu_resource r.gpu_name ≡ ok r
      → r.gpu_type ≢ normal
      → avail_of (update_avail_tiers nodes) r.gpu_type r ≡ last_reported r.gpu_name nodes
  unfolding avail_of update_avail_tiers last_reported count
  avail-last_reported nodes r p ne =
      count-add_nodes r p (parse-IsSized r.gpu_name r p ne) (λ t. []) nodes

  count-nan : (m : Counts) (r : GpuResource) → fl.is_nan r.cpu_size ≡ true → count m r ≡ 0
  unfolding count
  count-nan [] r h = refl
  count-nan ((k, n) ∷ m) r h = rw (resource_eq-nan k r h) (count-nan m r h)

  -- The three answers of the registry are errors.
  abbrev pub Unavailable : List Node → GpuResource → Type 0
  Unavailable nodes r =
      (get_same_avail_tier nodes r ≡ err "no same available tier found")
      × (get_prev_avail_tier nodes r ≡ err "no prev available tier found")
      × (get_next_avail_tier nodes r ≡ err "no next available tier found")

  normal-Unavailable : (nodes : List Node) → Unavailable nodes (normal_resource "nvidia.com/gpu")
  unfolding get_same_avail_tier get_prev_avail_tier get_next_avail_tier avail_of prev_in next_in
      tiers
  normal-Unavailable nodes = (
    rw (
        count-nan (update_avail_tiers nodes normal) (normal_resource "nvidia.com/gpu")
          fl.is_nan-nan),
    refl,
    refl,
  )

  -- A whole GPU has no size, and no lookup finds it: whatever the nodes report, the registry answers
  -- that no tier is available for scaling it out, down or up.
  pub whole_gpu-Unavailable :
      (nodes : List Node) (r : GpuResource)
      → parse_gpu_resource "nvidia.com/gpu" ≡ ok r
      → Unavailable nodes r
  unfolding parse_gpu_resource
  whole_gpu-Unavailable nodes r h = subst (Unavailable nodes) (ok_inj h) (normal-Unavailable nodes)
