-- ===== src/Reconfig/Usage/Demand.antt =====
-- What the counts of the requested slices add up to.
use kube_comp_mig.Prelude.{
  ℕ, ◌+◌, String, Bool, true, false, ◌≡◌, refl, List, [], ◌∷◌, ◌++◌, arith, str_eq, eq_iff,
  if◌then◌else◌,
}
use kube_comp_mig.Prelude.Maps.{Map, string_eq, or_default, lookup, insert, lookup-insert}
use kube_comp_mig.Reconfig.Usage.{
  PodSpec, is_mig, add_request, add_container, add_containers, asks_slice, terminated, add_pods,
  extract_used_gpu, requested,
}

-- What a request asks of the slice `name`.
abbrev asked : String → String → ℕ → ℕ
asked name k num = if str_eq k name then (if is_mig k then num else 0) else 0

abbrev asked_container : String → Map String ℕ → ℕ
asked_container name [] = 0
asked_container name ((k, num) ∷ rest) = asked name k num + asked_container name rest

-- How many slices of a name the containers of a pod request.
abbrev pub asked_pod : String → List (Map String ℕ) → ℕ
asked_pod name [] = 0
asked_pod name (c ∷ cs) = asked_container name c + asked_pod name cs

-- How many the pods request that have not terminated.
abbrev pub asked_node : String → List PodSpec → ℕ
asked_node name [] = 0
asked_node name (p ∷ ps) =
    (if terminated p.phase then 0 else asked_pod name p.containers) + asked_node name ps

abbrev pub count : String → Map String ℕ → ℕ
count name counts = or_default 0 (lookup name counts)

count-insert :
    (k name : String) (n : ℕ) (counts : Map String ℕ)
    → count name (insert k n counts) ≡ (if str_eq k name then n else count name counts)
count-insert k name n counts = rw (lookup-insert k name n counts) (ground arith)

add_request-asked :
    (name k : String) (num : ℕ) (counts : Map String ℕ)
    → count name (add_request k num counts) ≡ count name counts + asked name k num
unfolding add_request
add_request-asked name k num counts =
    ground (arith, eq_iff k name, count-insert k name (count k counts + num) counts)

add_container-asked :
    (name : String) (c counts : Map String ℕ)
    → count name (add_container c counts) ≡ count name counts + asked_container name c
unfolding add_container
add_container-asked name [] counts = omega arith
add_container-asked name ((k, num) ∷ rest) counts = omega (
  arith,
  add_container-asked name rest (add_request k num counts),
  add_request-asked name k num counts,
)

add_containers-asked :
    (name : String) (cs : List (Map String ℕ)) (counts : Map String ℕ)
    → count name (add_containers cs counts) ≡ count name counts + asked_pod name cs
unfolding add_containers
add_containers-asked name [] counts = omega arith
add_containers-asked name (c ∷ cs) counts = omega (
  arith,
  add_containers-asked name cs (add_container c counts),
  add_container-asked name c counts,
)

skipped_or_added :
    (name : String) (b : Bool) (f g : Map String ℕ × List PodSpec) (base own rest : ℕ)
    → count name f.0 ≡ base + rest
    → count name g.0 ≡ base + own + rest
    → count name (if b then f else g).0 ≡ base + ((if b then 0 else own) + rest)
skipped_or_added name true f g base own rest h k = omega (arith, h)
skipped_or_added name false f g base own rest h k = omega (arith, k)

add_pods-asked :
    (name : String) (ps : List PodSpec) (s : Map String ℕ × List PodSpec)
    → count name (add_pods ps s).0 ≡ count name s.0 + asked_node name ps
unfolding add_pods
add_pods-asked name [] s = omega arith
add_pods-asked name (p ∷ ps) s =
    let added : Map String ℕ × List PodSpec =
      (add_containers p.containers s.0, if asks_slice p.containers then s.1 ++ p ∷ [] else s.1) in
    skipped_or_added name (terminated p.phase) (add_pods ps s) (add_pods ps added) _ _ _
      (add_pods-asked name ps s)
      (omega (arith, add_pods-asked name ps added, add_containers-asked name p.containers s.0))

nothing_counted : (name : String) → count name [] ≡ 0
unfolding lookup
nothing_counted name = refl

-- The count of a slice is the number that the pods of the node that have not terminated request of it,
-- together with the requests of the target pod; resources that are no MIG slices count for nothing.
pub requested-asked :
    (name : String) (pods : List PodSpec) (target : PodSpec)
    → count name (requested pods target) ≡ asked_node name pods + asked_pod name target.containers
unfolding requested extract_used_gpu
requested-asked name pods target = omega (
  arith,
  add_containers-asked name target.containers (add_pods pods ([], [])).0,
  add_pods-asked name pods ([], []),
  nothing_counted name,
)
