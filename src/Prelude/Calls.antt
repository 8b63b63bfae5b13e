-- ===== src/Prelude/Calls.antt =====
-- Actions that make calls to a cluster. The state is the list of the calls made so far, the latest
-- first; what the cluster answers to a call may depend on all calls before it, so the answers are
-- functions of that list.
use Prim.Native.String.{String}
use mathlib.Core.List.{List, ◌∷◌}
use mathlib.Core.Option.{Option, none, some}
use kube_comp_mig.Prelude.Outcomes.{Outcome, ok, err, panic, running}

abbrev pub or_error {ℓ} : {A : Type ℓ} → String → Option A → Outcome A
or_error message none = err message
or_error message (some a) = ok a

abbrev pub Act {ℓ} : Type ℓ → Type ℓ → Type ℓ
Act C A = List C → Outcome A × List C

module _ {ℓ} {C : Type ℓ} where
  abbrev pub and_then : {A B : Type ℓ} → Outcome A → (A → Act C B) → Act C B
  and_then (ok a) f h = f a h
  and_then (err e) f h = (err e, h)
  and_then panic f h = (panic, h)
  and_then running f h = (running, h)

  infixl 5 ◌>>=◌
  abbrev pub ◌>>=◌ : {A B : Type ℓ} → Act C A → (A → Act C B) → Act C B
  ◌>>=◌ m f h = and_then (m h).0 f (m h).1

  abbrev pub pure : {A : Type ℓ} → A → Act C A
  pure a h = (ok a, h)

  abbrev pub stop : {A : Type ℓ} → Outcome A → Act C A
  stop o h = (o, h)

  -- A call whose answer may be an error with the given message.
  abbrev pub ask : {A : Type ℓ} → C → String → (List C → Option A) → Act C A
  ask c message answer h = (or_error message (answer h), c ∷ h)
