-- ===== src/Autoscaler/Resource/Parsing.antt =====
-- What the parser of GPU names returns.
use kube_comp_mig.Prelude.{ℕ, String, ◌≡◌, Option, none, some, List, arith, ◌≢◌}
use kube_comp_mig.Prelude.Floats.{Float64}
use kube_comp_mig.Prelude.Outcomes.{ok}
use kube_comp_mig.Autoscaler.Resource.{
  GpuResource, normal, parse_mig, parse_mps, parse_gpu_resource, find_mig, find_mps,
}
use kube_comp_mig.Prelude.Text.{atoi_clamped}
use kube_comp_mig.Autoscaler.Resource.Equality.{IsSized}

module _ ⦃fl : Float64⦄ where
  parse_mps-name :
      (name : String) (o : Option (List ℕ)) (r : GpuResource)
      → parse_mps name o ≡ ok r
      → r.gpu_name ≡ name
  unfolding parse_mps
  parse_mps-name name (some m) r h = ground arith
  parse_mps-name name none r h = ground arith

  parse_mig-name :
      (name : String) (o : Option (List ℕ × List ℕ)) (r : GpuResource)
      → parse_mig name o ≡ ok r
      → r.gpu_name ≡ name
  unfolding parse_mig
  parse_mig-name name (some m) r h = ground arith
  parse_mig-name name none r h = parse_mps-name name (find_mps name) r h

  -- The parsed resource keeps the name.
  pub parse-name :
      (name : String) (r : GpuResource) → parse_gpu_resource name ≡ ok r → r.gpu_name ≡ name
  unfolding parse_gpu_resource
  parse-name name r h = parse_mig-name name (find_mig name) r h

  parse_mps-IsSized :
      (name : String) (o : Option (List ℕ)) (r : GpuResource)
      → parse_mps name o ≡ ok r
      → r.gpu_type ≢ normal
      → IsSized r
  unfolding parse_mps
  parse_mps-IsSized name (some m) r h ne = record {
    cpu = ground (arith, fl.is_nan-of_nat (atoi_clamped m));
    mem = ground (arith, fl.is_nan-of_nat (atoi_clamped m));
  }
  parse_mps-IsSized name none r h ne = absurd (ground arith)

  parse_mig-IsSized :
      (name : String) (o : Option (List ℕ × List ℕ)) (r : GpuResource)
      → parse_mig name o ≡ ok r
      → r.gpu_type ≢ normal
      → IsSized r
  unfolding parse_mig
  parse_mig-IsSized name (some (c, m)) r h ne = record {
    cpu = ground (arith, fl.is_nan-of_nat (atoi_clamped c));
    mem = ground (arith, fl.is_nan-of_nat (atoi_clamped m));
  }
  parse_mig-IsSized name none r h ne = parse_mps-IsSized name (find_mps name) r h ne

  -- A slice, of MIG or of MPS, has numbers for its sizes.
  pub parse-IsSized :
      (name : String) (r : GpuResource)
      → parse_gpu_resource name ≡ ok r
      → r.gpu_type ≢ normal
      → IsSized r
  unfolding parse_gpu_resource
  parse-IsSized name r h ne = parse_mig-IsSized name (find_mig name) r h ne
