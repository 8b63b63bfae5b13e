-- ===== src/Reconfig/Queue.antt =====
-- `KeyToQueue` of reconfig/kubecomp-mig/internal/controllers/util.go: the nodes on which the pods of
-- a deployment should start again, first come first served. A nil map reads as the empty map, and
-- `Add` makes the map before it writes.
pub mod Promise
pub mod Refinement
mod Samples
use kube_comp_mig.Prelude.{String, Bool, true, false, Option, none, some, List, [], ◌∷◌, ◌++◌}
use kube_comp_mig.Prelude.Maps.{Map, string_eq, or_default, lookup, insert, remove, keys}
use kube_comp_mig.Prelude.Outcomes.{Outcome, ok, err, panic, running}

-- `KeyToQueue`: its field `lookup`
abbrev pub KeyToQueue : Type 0
KeyToQueue = Map String (List String)

-- `len(k.lookup) == 0`
unfoldable pub is_empty : KeyToQueue → Bool
is_empty [] = true
is_empty (e ∷ rest) = false

pub add : String → String → KeyToQueue → KeyToQueue
add key value q = insert key (or_default [] (lookup key q) ++ value ∷ []) q

-- `values[0]`, where the key exists and has a value
unfoldable pub first : Option (List String) → Outcome String
first none = err "Not found."
first (some []) = err "Not found."
first (some (v ∷ vs)) = ok v

unfoldable pub get_first_val : String → KeyToQueue → Outcome String
unfolding first
get_first_val key q = first (lookup key q)

-- `k.lookup[key] = values[1:]`, and the key deleted where nothing is left.
pub without_first : String → Option (List String) → KeyToQueue → Outcome KeyToQueue
without_first key none q = err "Not found."
without_first key (some []) q = err "Not found."
without_first key (some (v ∷ [])) q = ok (remove key (insert key [] q))
without_first key (some (v ∷ w ∷ vs)) q = ok (insert key (w ∷ vs) q)

pub delete_first_val : String → KeyToQueue → Outcome KeyToQueue
unfolding without_first
delete_first_val key q = without_first key (lookup key q) q

pub delete_key : String → KeyToQueue → KeyToQueue
delete_key key q = remove key q

-- `GetAllKeys`, in the order of one `range` over the map.
pub get_all_keys : KeyToQueue → List String
get_all_keys q = keys q
