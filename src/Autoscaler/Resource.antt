-- ===== src/Autoscaler/Resource.antt =====
-- GPU resources and the parser of their names (Autoscaler/gpuResource.go).
pub mod Equality
pub mod Parsing
use kube_comp_mig.Prelude.{
  ℕ, String, Bool, true, false, ◌&&◌, Option, none, some, List, [], ◌∷◌, str_eq, if◌then◌else◌,
}
use kube_comp_mig.Prelude.Floats.{Float64}
use kube_comp_mig.Prelude.Outcomes.{Outcome, ok, err}
use kube_comp_mig.Prelude.Text.{codes, strip_prefix, span_digits, atoi_clamped}

-- `GpuType`
pub data GpuType : Type 0 where
  mps mig normal : GpuType

abbrev pub type_eq : GpuType → GpuType → Bool
type_eq mps mps = true
type_eq mig mig = true
type_eq normal normal = true
type_eq _ _ = false

-- `\d+`: one digit at least, as many as there are.
digits : List ℕ → Option (List ℕ × List ℕ)
digits s = elim (span_digits s).0 [ [] ↦ none | c ∷ ds ↦ some (c ∷ ds, (span_digits s).1) ]

and_then : {A B : Type 0} → Option A → (A → Option B) → Option B
and_then none f = none
and_then (some a) f = f a

-- `mig-(\d+)g\.(\d+)gb` at the beginning of a text: the two groups. What follows a run of digits in
-- the pattern is no digit, so a shorter run never matches.
match_mig : List ℕ → Option (List ℕ × List ℕ)
unfolding strip_prefix span_digits
match_mig s = and_then (strip_prefix (codes "mig-") s) λ s₁. and_then (digits s₁) λ cpu.
    and_then (strip_prefix (codes "g.") cpu.1) λ s₂.
      and_then (digits s₂)
        λ mem. and_then (strip_prefix (codes "gb") mem.1) λ _. some (cpu.0, mem.0)

-- `gpu-(\d+)gb` at the beginning of a text.
match_mps : List ℕ → Option (List ℕ)
match_mps s =
    and_then (strip_prefix (codes "gpu-") s)
      λ s₁. and_then (digits s₁) λ mem. and_then (strip_prefix (codes "gb") mem.1) λ _. some mem.0

-- `FindStringSubmatch`: the leftmost match.
leftmost : {A : Type 0} → (List ℕ → Option A) → List ℕ → Option A
leftmost match_at [] = match_at []
leftmost match_at (c ∷ s) =
    let rest = leftmost match_at s in elim (match_at (c ∷ s)) [ some a ↦ some a | none ↦ rest ]

pub find_mig : String → Option (List ℕ × List ℕ)
unfolding leftmost match_mig and_then digits strip_prefix span_digits
find_mig name = leftmost match_mig (codes name)

pub find_mps : String → Option (List ℕ)
unfolding leftmost match_mps and_then digits strip_prefix span_digits
find_mps name = leftmost match_mps (codes name)

module _ ⦃fl : Float64⦄ where
  -- `GpuResource`
  pub record GpuResource : Type 0 where
    pub gpu_type : GpuType
    pub gpu_name : String
    pub cpu_size : fl.F
    pub mem_size : fl.F

  -- `==` of two structs: all fields are equal.
  unfoldable pub resource_eq : GpuResource → GpuResource → Bool
  resource_eq a b =
      type_eq a.gpu_type b.gpu_type
      && (str_eq a.gpu_name b.gpu_name
          && (fl.eq a.cpu_size b.cpu_size && fl.eq a.mem_size b.mem_size))

  pub mig_resource : String → List ℕ × List ℕ → GpuResource
  unfolding atoi_clamped
  mig_resource name m = record {
    gpu_type = mig;
    gpu_name = name;
    cpu_size = fl.of_nat (atoi_clamped m.0);
    mem_size = fl.of_nat (atoi_clamped m.1);
  }

  pub mps_resource : String → List ℕ → GpuResource
  unfolding atoi_clamped
  mps_resource name m = record {
    gpu_type = mps;
    gpu_name = name;
    cpu_size = fl.of_nat (atoi_clamped m);
    mem_size = fl.of_nat (atoi_clamped m);
  }

  abbrev pub normal_resource : String → GpuResource
  normal_resource name = record {
    gpu_type = normal;
    gpu_name = name;
    cpu_size = fl.nan;
    mem_size = fl.nan;
  }

  -- The last two tests of `parseGpuResource`.
  parse_mps : String → Option (List ℕ) → Outcome GpuResource
  unfolding mps_resource
  parse_mps name (some m) = ok (mps_resource name m)
  parse_mps name none =
      if str_eq name "nvidia.com/gpu"
      then ok (normal_resource name)
      else err "unsupported GPU name format"

  parse_mig : String → Option (List ℕ × List ℕ) → Outcome GpuResource
  unfolding mig_resource parse_mps find_mps
  parse_mig name (some m) = ok (mig_resource name m)
  parse_mig name none = parse_mps name (find_mps name)

  -- `parseGpuResource`
  unfoldable pub parse_gpu_resource : String → Outcome GpuResource
  unfolding parse_mig find_mig
  parse_gpu_resource name = parse_mig name (find_mig name)
