-- ===== src/Queues.antt =====
-- `HashMapQueue` (common/misc/hash_map_queue.h): a queue for each key, as the directory controllers
-- keep the requests of each address.
pub mod Contents
pub mod Counts
use graphite_atac.Prelude.{
  ℕ, ◌==◌, if◌then◌else◌, Bool, true, false, List, [], ◌∷◌, ◌++◌, Option, none, some, length,
  Result, ok, fail, undefined_behaviour,
}

-- The `map`: its entries, of which `find` takes the key's and `erase` leaves none of the key.
abbrev pub HashMapQueue {ℓ} : Type ℓ → Type ℓ
HashMapQueue V = List (ℕ × List V)

module _ {ℓ} {V : Type ℓ} where
  unfoldable pub find : ℕ → HashMapQueue V → Option (List V)
  find key [] = none
  find key ((k, queue) ∷ m) = if k == key then some queue else find key m

  unfoldable pub put : ℕ → List V → HashMapQueue V → HashMapQueue V
  put key queue [] = (key, queue) ∷ []
  put key queue ((k, old) ∷ m) = if k == key then (key, queue) ∷ m else (k, old) ∷ put key queue m

  unfoldable pub erase : ℕ → HashMapQueue V → HashMapQueue V
  erase key [] = []
  erase key ((k, queue) ∷ m) = if k == key then erase key m else (k, queue) ∷ erase key m

  unfoldable pub enqueue : HashMapQueue V → ℕ → V → HashMapQueue V
  enqueue m key value = elim (find key m) [
    | none ↦ put key (value ∷ []) m
    | some queue ↦ put key (queue ++ value ∷ []) m
  ]

  -- `default` is `V()`; the front of an empty queue is undefined.
  unfoldable pub dequeue : V → HashMapQueue V → ℕ → Result (HashMapQueue V × V)
  dequeue default m key = elim (find key m) [
    | none ↦ ok (m, default)
    | some [] ↦ fail undefined_behaviour
    | some (value ∷ []) ↦ ok (erase key m, value)
    | some (value ∷ next ∷ rest) ↦ ok (put key (next ∷ rest) m, value)
  ]

  unfoldable pub front : V → HashMapQueue V → ℕ → Result V
  front default m key = elim (find key m) [
    | none ↦ ok default
    | some [] ↦ fail undefined_behaviour
    | some (value ∷ rest) ↦ ok value
  ]

  unfoldable pub count : HashMapQueue V → ℕ → ℕ
  count m key = elim (find key m) [ none ↦ 0 | some queue ↦ length queue ]

  unfoldable pub is_empty : HashMapQueue V → ℕ → Bool
  is_empty m key = elim (find key m) [ none ↦ true | some queue ↦ false ]

  unfoldable pub size : HashMapQueue V → ℕ
  size m = length m
