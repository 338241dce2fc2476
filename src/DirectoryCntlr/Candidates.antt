-- ===== src/DirectoryCntlr/Candidates.antt =====
-- Which entry is replaced (processDirectoryEntryAllocationReq of dram_directory_cntlr.cc).
use mathlib.Core.List.{Mem, Mem-prop, mem-cons_self, mem-cons_of_mem, eq-or-mem_of_mem-cons}
use mathlib.Core.Logic.Or
use mathlib.Core.Path.{subst}
use graphite_atac.Prelude.{
  ℕ, ◌≤◌, ◌==◌, ◌≡◌, sym, true, false, ◌&&◌, Option, none, some, List, [], ◌∷◌, All, Bool-cases,
  inl, inr, arith, ==_iff,
}
use graphite_atac.Queues.{HashMapQueue}
use graphite_atac.Directory.Entry.{Scheme, DirectoryEntry}
use graphite_atac.DirectoryCntlr.Messages.{ShmemReq}
use graphite_atac.DirectoryCntlr.Replacement.{requests_of, is_better, choose_candidate}

mem-insert : {A : Type 0} (b a : A) {e : A} {l : List A} → Mem e (b ∷ l) → Mem e (b ∷ a ∷ l)
mem-insert b a {e} {l} m =
    Or.elim Mem-prop (eq-or-mem_of_mem-cons m)
      (λ p. subst (λ x. Mem x (b ∷ a ∷ l)) (sym p) mem-cons_self)
      (λ n. mem-cons_of_mem b (mem-cons_of_mem a n))

module _ {E : Type 0} (scheme : Scheme E) (queue : HashMapQueue (Option ShmemReq)) where
  abbrev pub IsIdle : DirectoryEntry E → Type 0
  IsIdle e = requests_of queue e.address ≡ 0

  abbrev pub sharers_of : DirectoryEntry E → ℕ
  sharers_of e = scheme.get_num_sharers e.sharers

  abbrev pub AtMost : ℕ → DirectoryEntry E → Type 0
  AtMost n e = IsIdle e → n ≤ sharers_of e

  -- The choice among the candidates: none only if each of them has a request, and else an idle one
  -- with as few sharers as any idle one.
  abbrev pub Chosen : List (DirectoryEntry E) → Option (DirectoryEntry E) → Type 0
  Chosen list none = All (λ e. ¬ IsIdle e) list
  Chosen list (some e) = Mem e list × IsIdle e × All (AtMost (sharers_of e)) list

  -- The same after a choice among some candidates before.
  abbrev Improves : DirectoryEntry E → List (DirectoryEntry E) → Option (DirectoryEntry E) → Type 0
  Improves best list none = ⊥
  Improves best list (some e) =
      Mem e (best ∷ list)
      × IsIdle e
      × (sharers_of e ≤ sharers_of best)
      × All (AtMost (sharers_of e)) list

  Improved-better :
      (a best : DirectoryEntry E) (list : List (DirectoryEntry E)) (r : Option (DirectoryEntry E))
      → (is_better scheme (some best) a && requests_of queue a.address == 0) ≡ true
      → Improves a list r
      → Improves best (a ∷ list) r
  unfolding is_better
  Improved-better a best list none q h = h
  Improved-better a best list (some e) q (m, idle, fewer, all) =
      (mem-cons_of_mem best m, idle, ground arith, ((λ _. fewer), all))

  Improved-worse :
      (a best : DirectoryEntry E) (list : List (DirectoryEntry E)) (r : Option (DirectoryEntry E))
      → (is_better scheme (some best) a && requests_of queue a.address == 0) ≡ false
      → Improves best list r
      → Improves best (a ∷ list) r
  unfolding is_better
  Improved-worse a best list none q h = h
  Improved-worse a best list (some e) q (m, idle, fewer, all) =
      (mem-insert best a m, idle, fewer, ((λ (i : IsIdle a). ground (arith, i)), all))

  Chosen_from :
      (a : DirectoryEntry E) (list : List (DirectoryEntry E)) (r : Option (DirectoryEntry E))
      → Improves a list r
      → Chosen (a ∷ list) r
  Chosen_from a list none h = absurd h
  Chosen_from a list (some e) (m, idle, fewer, all) = (m, idle, ((λ _. fewer), all))

  Chosen_after :
      (a : DirectoryEntry E) (list : List (DirectoryEntry E)) (r : Option (DirectoryEntry E))
      → ¬ IsIdle a
      → Chosen list r
      → Chosen (a ∷ list) r
  Chosen_after a list none busy h = (busy, h)
  Chosen_after a list (some e) busy (m, idle, all) =
      (mem-cons_of_mem a m, idle, ((λ i. absurd (busy i)), all))

  improve :
      (list : List (DirectoryEntry E)) (best : DirectoryEntry E)
      → IsIdle best
      → Improves best list (choose_candidate scheme queue (some best) list)
  unfolding choose_candidate
  improve [] best idle = (mem-cons_self, idle, omega arith, tt)
  improve (a ∷ list) best idle =
      elim (Bool-cases (is_better scheme (some best) a && requests_of queue a.address == 0)) [
        | inl better ↦
            rw (better, choose_candidate)
              (Improved-better a best list _ better (improve list a (ground arith)))
        | inr worse ↦
            rw (worse, choose_candidate)
              (Improved-worse a best list _ worse (improve list best idle))
      ]

  -- The entry chosen to be replaced is a candidate whose line has no request, with as few sharers
  -- as any such candidate; none is chosen only if every candidate has a request.
  pub choose_candidate_lem :
      (list : List (DirectoryEntry E)) → Chosen list (choose_candidate scheme queue none list)
  unfolding choose_candidate is_better
  choose_candidate_lem [] = tt
  choose_candidate_lem (a ∷ list) = elim (Bool-cases (requests_of queue a.address == 0)) [
    | inl idle ↦
        rw (idle, choose_candidate) (Chosen_from a list _ (improve list a ((==_iff _ 0).0 idle)))
    | inr busy ↦
        rw (busy, choose_candidate)
          (Chosen_after a list _ (ground arith) (choose_candidate_lem list))
  ]
