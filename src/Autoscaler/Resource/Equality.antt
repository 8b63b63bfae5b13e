-- ===== src/Autoscaler/Resource/Equality.antt =====
-- Equality of GPU resources as Go compares structs: a partial equivalence, since a NaN equals nothing.
use kube_comp_mig.Prelude.{◌≡◌, refl, arith, true, false, eq_iff}
use kube_comp_mig.Prelude.Floats.{Float64}
use kube_comp_mig.Autoscaler.Resource.{GpuResource, GpuType, mps, mig, normal, type_eq, resource_eq}

pub type_eq_self : (t : GpuType) → type_eq t t ≡ true
type_eq_self mps = refl
type_eq_self mig = refl
type_eq_self normal = refl

pub type_eq_iff : (s t : GpuType) → type_eq s t ≡ true → s ≡ t
type_eq_iff mps mps h = refl
type_eq_iff mps mig h = cc
type_eq_iff mps normal h = cc
type_eq_iff mig mps h = cc
type_eq_iff mig mig h = refl
type_eq_iff mig normal h = cc
type_eq_iff normal mps h = cc
type_eq_iff normal mig h = cc
type_eq_iff normal normal h = refl

module _ ⦃fl : Float64⦄ where
  -- The sizes are numbers, as those of MIG and MPS slices are.
  pub record IsSized (r : GpuResource) : Type 0 where
    pub cpu : fl.is_nan r.cpu_size ≡ false
    pub mem : fl.is_nan r.mem_size ≡ false

  pub resource_eq_self : (r : GpuResource) → IsSized r → resource_eq r r ≡ true
  unfolding resource_eq
  resource_eq_self r h = rw (
    type_eq_self r.gpu_type,
    (eq_iff r.gpu_name r.gpu_name).1 refl,
    fl.eq_self r.cpu_size h.cpu,
    fl.eq_self r.mem_size h.mem,
  )

  pub resource_eq-name : (a b : GpuResource) → resource_eq a b ≡ true → a.gpu_name ≡ b.gpu_name
  unfolding resource_eq
  resource_eq-name a b h = ground (arith, eq_iff a.gpu_name b.gpu_name)

  pub resource_eq_trans :
      (a b c : GpuResource)
      → resource_eq a b ≡ true
      → resource_eq b c ≡ true
      → resource_eq a c ≡ true
  unfolding resource_eq
  resource_eq_trans a b c h k = ground (
    arith,
    type_eq_iff a.gpu_type b.gpu_type,
    type_eq_iff b.gpu_type c.gpu_type,
    type_eq_self c.gpu_type,
    eq_iff a.gpu_name b.gpu_name,
    eq_iff b.gpu_name c.gpu_name,
    eq_iff a.gpu_name c.gpu_name,
    fl.eq_trans a.cpu_size b.cpu_size c.cpu_size,
    fl.eq_trans a.mem_size b.mem_size c.mem_size,
  )

  pub resource_eq_symm : (a b : GpuResource) → resource_eq a b ≡ true → resource_eq b a ≡ true
  unfolding resource_eq
  resource_eq_symm a b h = ground (
    arith,
    type_eq_iff a.gpu_type b.gpu_type,
    type_eq_self b.gpu_type,
    eq_iff a.gpu_name b.gpu_name,
    eq_iff b.gpu_name a.gpu_name,
    fl.eq_symm a.cpu_size b.cpu_size,
    fl.eq_symm a.mem_size b.mem_size,
  )

  -- A NaN in the sizes makes a key that no lookup finds.
  pub resource_eq-nan : (a b : GpuResource) → fl.is_nan b.cpu_size ≡ true → resource_eq a b ≡ false
  unfolding resource_eq
  resource_eq-nan a b h =
      ground (arith, fl.eq_symm a.cpu_size b.cpu_size, fl.eq-nan b.cpu_size a.cpu_size h)
