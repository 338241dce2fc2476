-- ===== src/Queues/Contents.antt =====
-- The queues of a `HashMapQueue`, key by key.
use graphite_atac.Prelude.{
  ℕ, ◌==◌, ◌≡◌, refl, if◌then◌else◌, Bool, true, false, List, [], ◌∷◌, ◌++◌, Option, none, some,
  length, ok, arith, ==_iff, ap, sym, ◌∙◌, ==_iff, ap, sym, ◌∙◌,
}
use graphite_atac.Queues.{HashMapQueue, find, put, erase, enqueue, dequeue, front, count, is_empty}

module _ {ℓ} {V : Type ℓ} where
  pub find-put :
      (key j : ℕ) (queue : List V) (m : HashMapQueue V)
      → find j (put key queue m) ≡ (if key == j then some queue else find j m)
  unfolding find put
  find-put key j queue [] = refl
  find-put key j queue ((k, old) ∷ m) = ground (arith, find-put key j queue m)

  pub find-erase :
      (key j : ℕ) (m : HashMapQueue V)
      → find j (erase key m) ≡ (if key == j then none else find j m)
  unfolding find erase
  find-erase key j [] = ground arith
  find-erase key j ((k, queue) ∷ m) = ground (arith, find-erase key j m)

  -- A key that has no entry has an empty queue, and no entry's queue is empty.
  abbrev pub entry_of : List V → Option (List V)
  entry_of [] = none
  entry_of (value ∷ rest) = some (value ∷ rest)

  abbrev pub Holds : HashMapQueue V → (ℕ → List V) → Type ℓ
  Holds m contents = (key : ℕ) → find key m ≡ entry_of (contents key)

  abbrev pub after_enqueue : (ℕ → List V) → ℕ → V → ℕ → List V
  after_enqueue contents key value j = if key == j then contents j ++ value ∷ [] else contents j

  enqueued :
      (m : HashMapQueue V) (key : ℕ) (value : V) (queue : List V)
      → find key m ≡ entry_of queue
      → enqueue m key value ≡ put key (queue ++ value ∷ []) m
  unfolding enqueue
  enqueued m key value [] h = rw (h, enqueue) refl
  enqueued m key value (first ∷ rest) h = rw (h, enqueue) refl

  entry_of-snoc :
      (queue : List V) (value : V) → entry_of (queue ++ value ∷ []) ≡ some (queue ++ value ∷ [])
  entry_of-snoc [] value = refl
  entry_of-snoc (first ∷ rest) value = refl

  -- Putting a value appends it to the queue of its key, and leaves the other queues as they were.
  pub enqueue-Holds :
      (m : HashMapQueue V) (contents : ℕ → List V) (key : ℕ) (value : V)
      → Holds m contents
      → Holds (enqueue m key value) (after_enqueue contents key value)
  enqueue-Holds m contents key value h j =
      ap (find j) (enqueued m key value (contents key) (h key))
      ∙ find-put key j (contents key ++ value ∷ []) m
      ∙ at_key (key == j) refl
    where
      at_key :
          (b : Bool)
          → (key == j) ≡ b
          → (if b then some (contents key ++ value ∷ []) else find j m)
            ≡ entry_of (if b then contents j ++ value ∷ [] else contents j)
      at_key true e =
          ap (λ k. some (contents k ++ value ∷ [])) ((==_iff key j).0 e)
          ∙ sym (entry_of-snoc (contents j) value)
      at_key false e = h j

  -- What `dequeue` gives for the queue of its key.
  abbrev pub Dequeued : V → HashMapQueue V → (ℕ → List V) → ℕ → List V → Type ℓ
  Dequeued default m contents key [] = dequeue default m key ≡ ok (m, default)
  Dequeued default m contents key (value ∷ rest) =
      (m' : HashMapQueue V) × (dequeue default m key ≡ ok (m', value))
      × Holds m' (λ j. if key == j then rest else contents j)

  with_rest :
      (m : HashMapQueue V) (contents : ℕ → List V) (rest : List V)
      → Holds m contents
      → (j : ℕ) (b : Bool)
      → (if b then entry_of rest else find j m) ≡ entry_of (if b then rest else contents j)
  with_rest m contents rest h j true = refl
  with_rest m contents rest h j false = h j

  dequeued :
      (default : V) (m : HashMapQueue V) (contents : ℕ → List V) (key : ℕ) (queue : List V)
      → Holds m contents
      → find key m ≡ entry_of queue
      → Dequeued default m contents key queue
  unfolding dequeue
  dequeued default m contents key [] h e = rw (e, dequeue) refl
  dequeued default m contents key (value ∷ []) h e = (
    erase key m,
    rw (e, dequeue) refl,
    λ j. find-erase key j m ∙ with_rest m contents [] h j (key == j),
  )
  dequeued default m contents key (value ∷ next ∷ rest) h e = (
    put key (next ∷ rest) m,
    rw (e, dequeue) refl,
    λ j. find-put key j (next ∷ rest) m ∙ with_rest m contents (next ∷ rest) h j (key == j),
  )

  -- Taking the front of a key's queue: the first value that was put there and not taken yet, and
  -- the other queues as they were; for a key with no queue, the default value and no change.
  pub dequeue-Holds :
      (default : V) (m : HashMapQueue V) (contents : ℕ → List V) (key : ℕ)
      → Holds m contents
      → Dequeued default m contents key (contents key)
  dequeue-Holds default m contents key h = dequeued default m contents key (contents key) h (h key)

  -- What the queries say of a key's queue.
  abbrev pub Answers : V → HashMapQueue V → ℕ → List V → Type ℓ
  Answers default m key [] =
      (front default m key ≡ ok default) × (count m key ≡ 0) × (is_empty m key ≡ true)
  Answers default m key (value ∷ rest) =
      (front default m key ≡ ok value)
      × (count m key ≡ length (value ∷ rest))
      × (is_empty m key ≡ false)

  answers :
      (default : V) (m : HashMapQueue V) (key : ℕ) (queue : List V)
      → find key m ≡ entry_of queue
      → Answers default m key queue
  unfolding front count is_empty
  answers default m key [] e = (rw (e, front) refl, rw (e, count) refl, rw (e, is_empty) refl)
  answers default m key (value ∷ rest) e =
      (rw (e, front) refl, rw (e, count) refl, rw (e, is_empty) refl)

  -- The queries of a key agree with its queue, and none of them fails.
  pub front-Holds :
      (default : V) (m : HashMapQueue V) (contents : ℕ → List V) (key : ℕ)
      → Holds m contents
      → Answers default m key (contents key)
  front-Holds default m contents key h = answers default m key (contents key) (h key)
