-- ===== src/DirectoryCache/Ways.antt =====
-- The search of a set of the directory cache, way by way, and of the replaced entries.
use mathlib.Core.Option
use mathlib.Core.Option.{some-injective}
use graphite_atac.Prelude.{
  ℕ, zero, suc, ◌+◌, ◌≤◌, ◌==◌, ◌<◌, sym, ◌∙◌, All, arith, false, ◌≡◌, refl, ap, Bool, true, Option,
  none, some, List, [], ◌∷◌, Result, ok, ==_iff, inl, inr, Bool-cases, vector_at, Yields,
  Yields-after, Yields-branch, Yields-map, vector_at-Ends,
}
use graphite_atac.Directory.Entry.{DirectoryEntry}
use graphite_atac.DirectoryCache.{
  DirectoryCache, is_at, is_free, entry_num, find_way, find_replaced,
}

pub is_at_lem : (address : ℕ) (o : Option ℕ) → is_at address o ≡ true → o ≡ some address
is_at_lem address none h = cc
is_at_lem address (some a) h = ap some ((==_iff a address).0 h)

pub is_free_lem : (o : Option ℕ) → is_free o ≡ true → o ≡ none
is_free_lem none h = refl
is_free_lem (some a) h = cc

module _ {E : Type 0} where
  -- No way of a set, of some from way `i` on, has an entry whose address passes the test.
  abbrev pub NoWay : (Option ℕ → Bool) → DirectoryCache E → ℕ → ℕ → ℕ → Type 0
  NoWay test c s i ways =
      (j : ℕ)
      → i ≤ j
      → j < i + ways
      → (e : DirectoryEntry E) → vector_at c.directory_entry_list (entry_num c s j) ≡ ok e
      → test e.address ≡ false

  abbrev pub IsWay : DirectoryCache E → ℕ → ℕ → ℕ → ℕ → Type 0
  IsWay c s i ways num = (j : ℕ) × (i ≤ j) × (j < i + ways) × (num ≡ entry_num c s j)

  abbrev pub Searched : (Option ℕ → Bool) → DirectoryCache E → ℕ → ℕ → ℕ → Option ℕ → Type 0
  Searched test c s i ways none = NoWay test c s i ways
  Searched test c s i ways (some num) =
      IsWay c s i ways num
      × ((e : DirectoryEntry E) × (vector_at c.directory_entry_list num ≡ ok e)
          × (test e.address ≡ true))

  pub ok-injective :
      {a b : DirectoryEntry E} → ◌≡◌ {A = Result (DirectoryEntry E)} (ok a) (ok b) → a ≡ b
  ok-injective h = cc

  Searched-next :
      (test : Option ℕ → Bool) (c : DirectoryCache E) (s i ways : ℕ) (e : DirectoryEntry E)
      → vector_at c.directory_entry_list (entry_num c s i) ≡ ok e
      → test e.address ≡ false
      → (o : Option ℕ) → Searched test c s (suc i) ways o
      → Searched test c s i (suc ways) o
  Searched-next test c s i ways e at_way fails (some num) ((j, low, high, named), passes) =
      ((j, omega (arith, low), omega (arith, high), named), passes)
  Searched-next test c s i ways e at_way fails none rest = λ j low high e' at_j.
      elim (Bool-cases (i == j)) [
        | inl here ↦
            let same : i ≡ j = (==_iff i j).0 here in
            let both = ok-injective (
              sym at_way
              ∙ ap (λ k. vector_at c.directory_entry_list (entry_num c s k)) same
              ∙ at_j) in
            ap (λ (x : DirectoryEntry E). test x.address) (sym both) ∙ fails
        | inr later ↦ rest j (ground (arith, low, later)) (omega (arith, high)) e' at_j
      ]

  pub find_way-Searched :
      (test : Option ℕ → Bool) (c : DirectoryCache E) (s i ways : ℕ)
      → Yields (Searched test c s i ways) (find_way test c s i ways)
  unfolding find_way
  find_way-Searched test c s i zero = λ j low high e at_j. absurd (omega (arith, low, high))
  find_way-Searched test c s i (suc ways) =
      Yields-after _ (vector_at c.directory_entry_list (entry_num c s i)) _
        (vector_at-Ends c.directory_entry_list _)
        (λ e at_way.
          Yields-branch _ (test e.address) _ _
            (λ passes. ((i, omega arith, omega arith, refl), (e, at_way, passes)))
            (λ fails.
              Yields-map _ _ (find_way test c s (suc i) ways)
                (find_way-Searched test c s (suc i) ways)
                (Searched-next test c s i ways e at_way fails)))

  abbrev pub NamesReplaced : ℕ → List (DirectoryEntry E) → Option ℕ → Type 0
  NamesReplaced address list none = All (λ e. is_at address e.address ≡ false) list
  NamesReplaced address list (some k) =
      (e : DirectoryEntry E) × (vector_at list k ≡ ok e) × (e.address ≡ some address)

  NamesReplaced-cons :
      (address : ℕ) (e : DirectoryEntry E) (list : List (DirectoryEntry E)) (o : Option ℕ)
      → is_at address e.address ≡ false
      → NamesReplaced address list o
      → NamesReplaced address (e ∷ list) (Option.map suc o)
  NamesReplaced-cons address e list none n h = (n, h)
  NamesReplaced-cons address e list (some k) n h = h

  pub find_replaced-NamesReplaced :
      (address : ℕ) (list : List (DirectoryEntry E))
      → NamesReplaced address list (find_replaced address list)
  unfolding find_replaced
  find_replaced-NamesReplaced address [] = tt
  find_replaced-NamesReplaced address (e ∷ list) = elim (Bool-cases (is_at address e.address)) [
    | inl here ↦ rw (here, find_replaced) (e, refl, is_at_lem address e.address here)
    | inr there ↦
        rw (there, find_replaced)
          (NamesReplaced-cons address e list _ there (find_replaced-NamesReplaced address list))
  ]
