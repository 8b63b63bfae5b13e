-- ===== src/Reconfig/Queue/Refinement.antt =====
-- `KeyToQueue` implements a queue for every key.
use kube_comp_mig.Prelude.{
  String, Bool, true, false, ◌≡◌, ◌≢◌, ◌↔◌, refl, sym, ap, ◌∙◌, Option, none, some, List, [], ◌∷◌,
  ◌++◌, str_eq, eq_iff, if◌then◌else◌, arith,
}
use kube_comp_mig.Prelude.Maps.{
  string_eq, or_default, lookup, insert, remove, lookup-insert, lookup-remove,
}
use kube_comp_mig.Reconfig.Queue.Promise.{
  Op, adding, deleting_first, deleting, or_same, step, steps, Queues, tail, at, spec_step,
  spec_steps, spec_first, view, NoEmpty, Stands, no_queues,
}
use kube_comp_mig.Reconfig.Queue.{
  KeyToQueue, is_empty, add, first, get_first_val, without_first, delete_first_val, delete_key,
}

first-view : (o : Option (List String)) → first o ≡ spec_first (or_default [] o)
unfolding first
first-view none = refl
first-view (some []) = refl
first-view (some (v ∷ vs)) = refl

get_first_val-view : (k : String) (q : KeyToQueue) → get_first_val k q ≡ spec_first (view q k)
unfolding get_first_val
get_first_val-view k q = first-view (lookup k q)

not_empty : (xs : List String) (v : String) → xs ++ v ∷ [] ≢ []
not_empty [] v = λ h. cc
not_empty (x ∷ xs) v = λ h. cc

-- An entry that is written, seen through `or_default`.
written :
    (b : Bool) (new old : Option (List String)) (x y : List String)
    → (b ≡ true → or_default [] new ≡ x)
    → or_default [] old ≡ y
    → or_default [] (if b then new else old) ≡ (if b then x else y)
written true new old x y f e = f refl
written false new old x y f e = e

-- Writing a queue that is not empty.
insert-Stands :
    (k w : String) (ws : List String) (f : List String → List String) (q : KeyToQueue) (s : Queues)
    → Stands q s
    → f (s k) ≡ w ∷ ws
    → Stands (insert k (w ∷ ws) q) (at k f s)
insert-Stands k w ws f q s h e = (
  λ j. rw (lookup-insert k j (w ∷ ws) q) (ground (arith, h.0 j)),
  λ j. rw (lookup-insert k j (w ∷ ws) q) (
      written (str_eq k j) _ _ _ _ (λ same. sym e ∙ ap (λ i. f (s i)) ((eq_iff k j).0 same))
        (h.1 j)),
)

remove-insert :
    (k j : String) (xs : List String) (q : KeyToQueue)
    → lookup j (remove k (insert k xs q)) ≡ (if str_eq k j then none else lookup j q)
remove-insert k j xs q =
    rw (lookup-remove k j (insert k xs q), lookup-insert k j xs q) (ground arith)

-- A map without the key.
cleared-Stands :
    (k : String) (f : List String → List String) (q r : KeyToQueue) (s : Queues)
    → ((j : String) → lookup j r ≡ (if str_eq k j then none else lookup j q))
    → Stands q s
    → f (s k) ≡ []
    → Stands r (at k f s)
cleared-Stands k f q r s cleared h e = (
  λ j. rw (cleared j) (ground (arith, h.0 j)),
  λ j. rw (cleared j) (
      written (str_eq k j) none _ _ _ (λ same. sym e ∙ ap (λ i. f (s i)) ((eq_iff k j).0 same))
        (h.1 j)),
)

add-Stands :
    (k v : String) (q : KeyToQueue) (s : Queues)
    → Stands q s
    → (xs : List String) → view q k ≡ xs
    → Stands (insert k (xs ++ v ∷ []) q) (at k (λ ys. ys ++ v ∷ []) s)
add-Stands k v q s h [] e =
    insert-Stands k v [] (λ ys. ys ++ v ∷ []) q s h (ap (λ ys. ys ++ v ∷ []) (sym (h.1 k) ∙ e))
add-Stands k v q s h (x ∷ xs) e =
    insert-Stands k x (xs ++ v ∷ []) (λ ys. ys ++ v ∷ []) q s h
      (ap (λ ys. ys ++ v ∷ []) (sym (h.1 k) ∙ e))

nothing_to_drop : (xs : List String) → xs ≡ [] → xs ≡ tail xs
nothing_to_drop [] e = refl
nothing_to_drop (x ∷ xs) e = cc

unchanged : (b : Bool) (x y : List String) → (b ≡ true → x ≡ y) → x ≡ (if b then y else x)
unchanged true x y f = f refl
unchanged false x y f = refl

-- Deleting the first value, by what the key holds.
delete_first-Stands :
    (k : String) (q : KeyToQueue) (s : Queues) (o : Option (List String))
    → lookup k q ≡ o
    → Stands q s
    → Stands (or_same q (without_first k o q)) (at k tail s)
unfolding without_first
delete_first-Stands k q s none e h = (
  h.0,
  λ j. rw (h.1 j) (
      unchanged (str_eq k j) _ _ (λ same.
        nothing_to_drop (s j)
          (ap s (sym ((eq_iff k j).0 same)) ∙ sym (h.1 k) ∙ ap (or_default []) e))),
)
delete_first-Stands k q s (some []) e h = absurd (h.0 k e)
delete_first-Stands k q s (some (v ∷ [])) e h =
    cleared-Stands k tail q _ s (λ j. remove-insert k j [] q) h
      (ap tail (sym (h.1 k) ∙ ap (or_default []) e))
delete_first-Stands k q s (some (v ∷ w ∷ vs)) e h =
    insert-Stands k w vs tail q s h (ap tail (sym (h.1 k) ∙ ap (or_default []) e))

step-Stands :
    (o : Op) (q : KeyToQueue) (s : Queues) → Stands q s → Stands (step o q) (spec_step o s)
unfolding add delete_first_val delete_key
step-Stands (adding k v) q s h = add-Stands k v q s h (view q k) refl
step-Stands (deleting_first k) q s h = delete_first-Stands k q s (lookup k q) refl h
step-Stands (deleting k) q s h =
    cleared-Stands k (λ xs. []) q (remove k q) s (λ j. lookup-remove k j q) h refl

steps-Stands :
    (os : List Op) (q : KeyToQueue) (s : Queues)
    → Stands q s
    → Stands (steps os q) (spec_steps os s)
steps-Stands [] q s h = h
steps-Stands (o ∷ os) q s h = steps-Stands os (step o q) (spec_step o s) (step-Stands o q s h)

start-Stands : Stands [] no_queues
unfolding lookup
start-Stands = (λ k h. cc, λ k. refl)

no_entries : (q : KeyToQueue) → is_empty q ≡ true → (k : String) → view q k ≡ []
unfolding is_empty lookup
no_entries [] e k = refl
no_entries (p ∷ q) e k = cc

lookup-head : (k : String) (v : List String) (q : KeyToQueue) → lookup k ((k, v) ∷ q) ≡ some v
unfolding lookup
lookup-head k v q = ground (arith, eq_iff k k)

no_waiting : (q : KeyToQueue) → NoEmpty q → ((k : String) → view q k ≡ []) → is_empty q ≡ true
unfolding is_empty
no_waiting [] n h = refl
no_waiting ((k, v) ∷ q) n h =
    let holds = lookup-head k v q in
    absurd (n k (holds ∙ ap some (sym (ap (or_default []) holds) ∙ h k)))

-- After any sequence of the operations that change them, from the start: the first value of a key is
-- the first value of the key's queue, or an error where that is empty, and the lookup is empty exactly
-- if all queues are. The queues grow at their end and shrink at their front.
pub queues_refine :
    (os : List Op)
    → ((k : String) → get_first_val k (steps os []) ≡ spec_first (spec_steps os no_queues k))
      × ((is_empty (steps os []) ≡ true) ↔ ((k : String) → spec_steps os no_queues k ≡ []))
queues_refine os =
    let h = steps-Stands os [] no_queues start-Stands in
    (
      λ k. get_first_val-view k (steps os []) ∙ ap spec_first (h.1 k),
      (
        λ e k. sym (h.1 k) ∙ no_entries (steps os []) e k,
        λ e. no_waiting (steps os []) h.0 (λ k. h.1 k ∙ e k),
      ),
    )
