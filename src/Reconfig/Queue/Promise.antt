-- ===== src/Reconfig/Queue/Promise.antt =====
-- What `KeyToQueue` promises: a queue for every key.
use kube_comp_mig.Prelude.{String, ◌≡◌, ◌≢◌, some, List, [], ◌∷◌, ◌++◌, str_eq, if◌then◌else◌}
use kube_comp_mig.Prelude.Maps.{string_eq, or_default, lookup}
use kube_comp_mig.Prelude.Outcomes.{Outcome, ok, err, panic, running}
use kube_comp_mig.Reconfig.Queue.{KeyToQueue, add, delete_first_val, delete_key}

-- The operations that change the queues.
pub data Op : Type 0 where
  adding : String → String → Op
  deleting_first deleting : String → Op

abbrev pub or_same : KeyToQueue → Outcome KeyToQueue → KeyToQueue
or_same q (ok r) = r
or_same q (err e) = q
or_same q panic = q
or_same q running = q

-- What the code does.
abbrev pub step : Op → KeyToQueue → KeyToQueue
step (adding k v) q = add k v q
step (deleting_first k) q = or_same q (delete_first_val k q)
step (deleting k) q = delete_key k q

abbrev pub steps : List Op → KeyToQueue → KeyToQueue
steps [] q = q
steps (o ∷ os) q = steps os (step o q)

-- The specification: a queue for every key.
abbrev pub Queues : Type 0
Queues = String → List String

abbrev pub tail : List String → List String
tail [] = []
tail (v ∷ vs) = vs

abbrev pub at : String → (List String → List String) → Queues → Queues
at k f s j = if str_eq k j then f (s j) else s j

abbrev pub spec_step : Op → Queues → Queues
spec_step (adding k v) = at k (λ xs. xs ++ v ∷ [])
spec_step (deleting_first k) = at k tail
spec_step (deleting k) = at k (λ xs. [])

abbrev pub spec_steps : List Op → Queues → Queues
spec_steps [] s = s
spec_steps (o ∷ os) s = spec_steps os (spec_step o s)

abbrev pub spec_first : List String → Outcome String
spec_first [] = err "Not found."
spec_first (v ∷ vs) = ok v

-- What the map holds for a key.
abbrev pub view : KeyToQueue → Queues
view q k = or_default [] (lookup k q)

-- No key has an empty queue.
abbrev pub NoEmpty : KeyToQueue → Type 0
NoEmpty q = (k : String) → lookup k q ≢ some []

-- The map `q` stands for the queues `s`.
abbrev pub Stands : KeyToQueue → Queues → Type 0
Stands q s = NoEmpty q × ((k : String) → view q k ≡ s k)

abbrev pub no_queues : Queues
no_queues k = []
