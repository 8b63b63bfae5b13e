-- ===== src/Dispatcher/Smallest.antt =====
-- The slice that a new service receives.
use kube_comp_mig.Prelude.{
  ℕ, ◌+◌, ◌<◌, String, Bool, true, false, ◌≡◌, ◌⊎◌, inl, inr, refl, Option, none, some, List, [],
  ◌∷◌, All, arith, ltb, str_eq, eq_iff, if◌then◌else◌,
}
use kube_comp_mig.Prelude.Maps.{Map, string_eq, or_default, lookup, lookup-insert}
use kube_comp_mig.Dispatcher.{
  mig_config_list, zeros, add_capacity, add_node_slices, add_all_nodes, find_smallest,
  smallest_slice,
}

-- What a node's capacity says of a slice.
abbrev pub capacity_of : String → Map String ℕ → ℕ
capacity_of name capacity = or_default 0 (lookup name capacity)

-- The capacity of the cluster.
abbrev pub total : String → List (Map String ℕ) → ℕ
total name [] = 0
total name (c ∷ nodes) = capacity_of name c + total name nodes

-- `found` is the first of the names with a capacity, or empty where none has any.
abbrev pub FirstWith : (String → ℕ) → List String → String → Type 0
FirstWith f [] found = found ≡ ""
FirstWith f (name ∷ names) found =
    ((0 < f name) × (found ≡ name)) ⊎ ((f name ≡ 0) × FirstWith f names found)

-- How often a list adds the capacity of a name.
abbrev added : String → List String → Map String ℕ → ℕ
added name [] c = 0
added name (k ∷ ks) c = (if str_eq k name then capacity_of k c else 0) + added name ks c

add_capacity-count :
    (name k : String) (o : Option ℕ) (counts : Map String ℕ)
    → capacity_of name (add_capacity k o counts)
      ≡ capacity_of name counts + (if str_eq k name then or_default 0 o else 0)
unfolding add_capacity
add_capacity-count name k none counts = ground arith
add_capacity-count name k (some n) counts =
    rw (lookup-insert k name (or_default 0 (lookup k counts) + n) counts)
      (ground (arith, eq_iff k name))

add_node_slices-added :
    (name : String) (names : List String) (c counts : Map String ℕ)
    → capacity_of name (add_node_slices names c counts)
      ≡ capacity_of name counts + added name names c
unfolding add_node_slices
add_node_slices-added name [] c counts = omega arith
add_node_slices-added name (k ∷ ks) c counts = omega (
  arith,
  add_node_slices-added name ks c (add_capacity k (lookup k c) counts),
  add_capacity-count name k (lookup k c) counts,
)

add_all_nodes-total :
    (name : String) (nodes : List (Map String ℕ)) (counts : Map String ℕ)
    → ((c : Map String ℕ) → added name mig_config_list c ≡ capacity_of name c)
    → capacity_of name (add_all_nodes nodes counts) ≡ capacity_of name counts + total name nodes
unfolding add_all_nodes
add_all_nodes-total name [] counts once = omega arith
add_all_nodes-total name (c ∷ nodes) counts once = omega (
  arith,
  add_all_nodes-total name nodes (add_node_slices mig_config_list c counts) once,
  add_node_slices-added name mig_config_list c counts,
  once c,
)

find_smallest-FirstWith :
    (counts : Map String ℕ) (f : String → ℕ) (names : List String)
    → All (λ n. capacity_of n counts ≡ f n) names
    → FirstWith f names (find_smallest counts names)
unfolding find_smallest
find_smallest-FirstWith counts f [] h = refl
find_smallest-FirstWith counts f (n ∷ ns) (e, h) =
    chosen (ltb 0 (capacity_of n counts)) (f n) n (find_smallest counts ns) (FirstWith f ns)
      (λ t. ground (arith, e)) (λ t. ground (arith, e)) (find_smallest-FirstWith counts f ns h)
  where
    chosen :
        (t : Bool) (b : ℕ) (name later : String) (P : String → Type 0)
        → (t ≡ true → 0 < b)
        → (t ≡ false → b ≡ 0)
        → P later
        → ((0 < b) × ((if t then name else later) ≡ name))
          ⊎ ((b ≡ 0) × P (if t then name else later))
    chosen true b name later P g h p = inl (g refl, refl)
    chosen false b name later P g h p = inr (h refl, p)

starts_at_zero : All (λ n. capacity_of n (zeros mig_config_list) ≡ 0) mig_config_list
unfolding zeros lookup
starts_at_zero = (refl, (refl, (refl, (refl, (refl, tt)))))

-- The list adds the capacity of each of its names once.
listed_once :
    (c : Map String ℕ) → All (λ n. added n mig_config_list c ≡ capacity_of n c) mig_config_list
listed_once c = (omega arith, (omega arith, (omega arith, (omega arith, (omega arith, tt)))))

counts-total :
    (nodes : List (Map String ℕ)) (name : String)
    → capacity_of name (zeros mig_config_list) ≡ 0
    → ((c : Map String ℕ) → added name mig_config_list c ≡ capacity_of name c)
    → capacity_of name (add_all_nodes nodes (zeros mig_config_list)) ≡ total name nodes
counts-total nodes name z once =
    omega (arith, z, add_all_nodes-total name nodes (zeros mig_config_list) once)

-- A new service receives the first slice of the list, the smallest first, of which the nodes together
-- have a capacity; the name is empty exactly where no node has a slice of the list.
pub smallest_slice-FirstWith :
    (nodes : List (Map String ℕ))
    → FirstWith (λ n. total n nodes) mig_config_list (smallest_slice nodes)
unfolding smallest_slice
smallest_slice-FirstWith nodes =
    let (z1, (z2, (z3, (z4, (z5, _))))) = starts_at_zero in
    find_smallest-FirstWith (add_all_nodes nodes (zeros mig_config_list)) (λ n. total n nodes)
      mig_config_list
      (
        counts-total nodes _ z1 (λ c. (listed_once c).0),
        (
          counts-total nodes _ z2 (λ c. (listed_once c).1.0),
          (
            counts-total nodes _ z3 (λ c. (listed_once c).1.1.0),
            (
              counts-total nodes _ z4 (λ c. (listed_once c).1.1.1.0),
              (counts-total nodes _ z5 (λ c. (listed_once c).1.1.1.1.0), tt),
            ),
          ),
        ),
      )
