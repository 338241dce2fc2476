-- ===== src/Queues/Counts.antt =====
-- The lengths of the queues of a `HashMapQueue`, and what holds of every value in them.
use mathlib.Core.Path.{subst}
use mathlib.Core.Option.{some-injective}
use graphite_atac.Prelude.{
  ℕ, suc, ◌-◌, ◌==◌, ◌≡◌, refl, sym, if◌then◌else◌, Bool, true, false, List, [], ◌∷◌, ◌++◌, Option,
  none, some, length, ok, arith, ==_iff, ap, ◌∙◌, All, All-append, length-append, Ends, fail,
  undefined_behaviour, Option-cases, inl, inr, Bool-cases, ◌⊎◌,
}
use graphite_atac.Queues.{HashMapQueue, find, put, erase, enqueue, dequeue, front, count}
use graphite_atac.Queues.Contents.{find-put, find-erase}

module _ {ℓ} {V : Type ℓ} where
  abbrev pub count_of : Option (List V) → ℕ
  count_of none = 0
  count_of (some queue) = length queue

  pub count_lem : (m : HashMapQueue V) (key : ℕ) → count m key ≡ count_of (find key m)
  unfolding count
  count_lem m key = refl

  count_of-if :
      (b : Bool) (queue : List V) (o : Option (List V))
      → count_of (if b then some queue else o) ≡ (if b then length queue else count_of o)
  count_of-if true queue o = refl
  count_of-if false queue o = refl

  pub count-put :
      (m : HashMapQueue V) (key j : ℕ) (queue : List V)
      → count (put key queue m) j ≡ (if key == j then length queue else count m j)
  unfolding count
  count-put m key j queue = ap count_of (find-put key j queue m) ∙ count_of-if (key == j) queue _

  count-erase :
      (m : HashMapQueue V) (key j : ℕ) → count (erase key m) j ≡ (if key == j then 0 else count m j)
  unfolding count
  count-erase m key j = ap count_of (find-erase key j m) ∙ go (key == j)
    where
      go :
          (b : Bool)
          → count_of (if b then none else find j m) ≡ (if b then 0 else count_of (find j m))
      go true = refl
      go false = refl

  count_at :
      (m : HashMapQueue V) (key j : ℕ) (o : Option (List V))
      → find key m ≡ o
      → (key == j) ≡ true
      → count m j ≡ count_of o
  count_at m key j o e h = ap (count m) (sym ((==_iff key j).0 h)) ∙ count_lem m key ∙ ap count_of e

  -- The queue of the key has another length.
  count_change :
      (m : HashMapQueue V) (key j n k : ℕ) (o : Option (List V)) (b : Bool)
      → find key m ≡ o
      → (key == j) ≡ b
      → (count m j ≡ count_of o → n ≡ k)
      → (if b then n else count m j) ≡ (if b then k else count m j)
  count_change m key j n k o true e h q = q (count_at m key j o e h)
  count_change m key j n k o false e h q = refl

  -- A value that is put in makes the queue of its key one longer.
  pub count-enqueue :
      (m : HashMapQueue V) (key j : ℕ) (v : V)
      → count (enqueue m key v) j ≡ (if key == j then suc (count m j) else count m j)
  unfolding enqueue
  count-enqueue m key j v = elim (Option-cases (find key m)) [
    | inl e ↦
        rw (e, enqueue)
          (count-put m key j (v ∷ [])
            ∙ count_change m key j 1 (suc (count m j)) none (key == j) e refl (λ q. omega arith))
    | inr (queue, e) ↦
        rw (e, enqueue)
          (count-put m key j (queue ++ v ∷ [])
            ∙ count_change m key j _ (suc (count m j)) (some queue) (key == j) e refl
                (λ q. length-append queue (v ∷ []) ∙ omega arith))
  ]

  dequeued_queue :
      (default v : V) (m m' : HashMapQueue V) (key : ℕ) {m'' : HashMapQueue V} {v' : V}
      → dequeue default m key ≡ ok (m', v)
      → dequeue default m key ≡ ok (m'', v')
      → m' ≡ m''
  dequeued_queue default v m m' key h e = cc

  -- A queue that is served is one shorter.
  pub count-dequeue :
      (default v : V) (m m' : HashMapQueue V) (key j : ℕ)
      → dequeue default m key ≡ ok (m', v)
      → count m' j ≡ (if key == j then count m j - 1 else count m j)
  unfolding dequeue
  count-dequeue default v m m' key j h = go (find key m) refl
    where
      same : (b : Bool) (n : ℕ) → n ≡ (if b then n else n)
      same true n = refl
      same false n = refl

      go :
          (o : Option (List V))
          → find key m ≡ o
          → count m' j ≡ (if key == j then count m j - 1 else count m j)
      go none e =
          ap (λ x. count x j)
            (dequeued_queue default v m m' key {m'' = m} {v' = default} h (rw (e, dequeue) refl))
          ∙ same (key == j) (count m j)
          ∙ count_change m key j (count m j) (count m j - 1) none (key == j) e refl
              (λ q. omega arith)
      go (some []) e =
          let q : dequeue default m key ≡ fail undefined_behaviour = rw (e, dequeue) refl in cc
      go (some (value ∷ [])) e =
          ap (λ x. count x j)
            (dequeued_queue default v m m' key {m'' = erase key m} {v' = value} h
              (rw (e, dequeue) refl))
          ∙ count-erase m key j
          ∙ count_change m key j 0 (count m j - 1) (some (value ∷ [])) (key == j) e refl
              (λ q. omega arith)
      go (some (value ∷ next ∷ rest)) e =
          ap (λ x. count x j)
            (dequeued_queue default v m m' key {m'' = put key (next ∷ rest) m} {v' = value} h
              (rw (e, dequeue) refl))
          ∙ count-put m key j (next ∷ rest)
          ∙ count_change m key j _ (count m j - 1) (some (value ∷ next ∷ rest)) (key == j) e refl
              (λ q. omega arith)

module _ {ℓ} {V : Type ℓ} (Q : ℕ → V → Type 0) where
  -- What holds of every value, by the key of its queue.
  abbrev pub AllQueued : HashMapQueue V → Type 0
  AllQueued m = All (λ p. All (Q p.0) p.1) m

  pub find-All :
      (key : ℕ) (m : HashMapQueue V) {queue : List V}
      → AllQueued m
      → find key m ≡ some queue
      → All (Q key) queue
  unfolding find
  find-All key [] h e = cc
  find-All key ((k, queue) ∷ m) {queue = found} h e = elim (Bool-cases (k == key)) [
    | inl here ↦
        let q : some queue ≡ some found = sym (rw (here, find) refl) ∙ e in
        subst (λ (x : ℕ × List V). All (Q x.0) x.1)
          (λ i. ((==_iff k key).0 here i, some-injective _ _ q i)) h.0
    | inr there ↦ find-All key m h.1 (sym (rw (there, find) refl) ∙ e)
  ]

  pub put-AllQueued :
      (key : ℕ) (queue : List V) (m : HashMapQueue V)
      → AllQueued m
      → All (Q key) queue
      → AllQueued (put key queue m)
  unfolding put
  put-AllQueued key queue [] h k = (k, tt)
  put-AllQueued key queue ((j, old) ∷ m) h k = elim (Bool-cases (j == key)) [
    | inl here ↦ rw (here, put) (k, h.1)
    | inr there ↦ rw (there, put) (h.0, put-AllQueued key queue m h.1 k)
  ]

  erase-AllQueued : (key : ℕ) (m : HashMapQueue V) → AllQueued m → AllQueued (erase key m)
  unfolding erase
  erase-AllQueued key [] h = tt
  erase-AllQueued key ((j, old) ∷ m) h = elim (Bool-cases (j == key)) [
    | inl here ↦ rw (here, erase) (erase-AllQueued key m h.1)
    | inr there ↦ rw (there, erase) (h.0, erase-AllQueued key m h.1)
  ]

  pub enqueue-AllQueued :
      (m : HashMapQueue V) (key : ℕ) (v : V) → AllQueued m → Q key v → AllQueued (enqueue m key v)
  unfolding enqueue
  enqueue-AllQueued m key v h k = elim (Option-cases (find key m)) [
    | inl e ↦ rw (e, enqueue) (put-AllQueued key (v ∷ []) m h (k, tt))
    | inr (queue, e) ↦
        rw (e, enqueue)
          (put-AllQueued key (queue ++ v ∷ []) m h
            (All-append (Q key) queue (v ∷ []) (find-All key m h e) (k, tt)))
  ]

  pub dequeue-AllQueued :
      (default v : V) (m m' : HashMapQueue V) (key : ℕ)
      → AllQueued m
      → dequeue default m key ≡ ok (m', v)
      → AllQueued m'
  unfolding dequeue
  dequeue-AllQueued default v m m' key h d = go (find key m) refl
    where
      moved :
          (m'' : HashMapQueue V) (v' : V)
          → AllQueued m''
          → dequeue default m key ≡ ok (m'', v')
          → AllQueued m'
      moved m'' v' k e =
          subst AllQueued (sym (dequeued_queue default v m m' key {m'' = m''} {v' = v'} d e)) k

      go : (o : Option (List V)) → find key m ≡ o → AllQueued m'
      go none e = moved m default h (rw (e, dequeue) refl)
      go (some []) e =
          let q : dequeue default m key ≡ fail undefined_behaviour = rw (e, dequeue) refl in
          absurd (cc)
      go (some (value ∷ [])) e =
          moved (erase key m) value (erase-AllQueued key m h) (rw (e, dequeue) refl)
      go (some (value ∷ next ∷ rest)) e =
          moved (put key (next ∷ rest) m) value
            (put-AllQueued key (next ∷ rest) m h (find-All key m h e).1) (rw (e, dequeue) refl)

module _ {ℓ} {V : Type ℓ} where
  -- The value at the front of a queue, or the default if there is no queue.
  pub front-find :
      (default v : V) (m : HashMapQueue V) (key : ℕ)
      → front default m key ≡ ok v
      → ((find key m ≡ none) × (default ≡ v)) ⊎ ((rest : List V) × (find key m ≡ some (v ∷ rest)))
  unfolding front
  front-find default v m key h = go (find key m) refl
    where
      go :
          (o : Option (List V))
          → find key m ≡ o
          → ((find key m ≡ none) × (default ≡ v))
            ⊎ ((rest : List V) × (find key m ≡ some (v ∷ rest)))
      go none e = let q : front default m key ≡ ok default = rw (e, front) refl in inl (e, (cc))
      go (some []) e =
          let q : front default m key ≡ fail undefined_behaviour = rw (e, front) refl in absurd (cc)
      go (some (value ∷ rest)) e =
          let q : front default m key ≡ ok value = rw (e, front) refl in
          inr (rest, e ∙ ap (λ x. some (x ∷ rest)) (cc))

  pub front-Ends : (default : V) (m : HashMapQueue V) (key : ℕ) → Ends (front default m key)
  unfolding front
  front-Ends default m key = go (find key m) refl
    where
      go : (o : Option (List V)) → find key m ≡ o → Ends (front default m key)
      go none e = rw (e, front) tt
      go (some []) e = rw (e, front) tt
      go (some (value ∷ rest)) e = rw (e, front) tt

  pub dequeue-Ends : (default : V) (m : HashMapQueue V) (key : ℕ) → Ends (dequeue default m key)
  unfolding dequeue
  dequeue-Ends default m key = go (find key m) refl
    where
      go : (o : Option (List V)) → find key m ≡ o → Ends (dequeue default m key)
      go none e = rw (e, dequeue) tt
      go (some []) e = rw (e, dequeue) tt
      go (some (value ∷ [])) e = rw (e, dequeue) tt
      go (some (value ∷ next ∷ rest)) e = rw (e, dequeue) tt
