-- ===== src/Borrow/Liveness/Converges.antt =====
-- The loop over headers, where a round takes and leaves each element for itself: it ends in its
-- second round.
use uinx.Prelude.{
  ℕ, suc, Bool, true, false, ◌&&◌, ◌||◌, List, Bytes, contains, ◌≡◌, refl, sym, ◌∙◌, Bool-cases,
  inl, inr,
}
use uinx.Borrow.Sets.{same_set, same_set-contains, contains-same_set}
use uinx.Borrow.Liveness.{Notes, Flow, converge, loop_header}

-- A flow holds the elements of a predicate, and reports nothing.
pub record Holds (f : Bytes → Bool) (n : Notes) (o : Flow) : Type 0 where
  pub elements : (x : Bytes) → contains x o.0 ≡ f x
  pub quiet : o.1.not_converged ≡ n.not_converged

stable : (u v h : Bool) → (u || (v && (u || (v && h)))) ≡ (u || (v && h))
stable true v h = refl
stable false true h = refl
stable false false h = refl

module _ (u v : Bytes → Bool) (round : List Bytes → Notes → Flow)
    (step : (h : List Bytes) (n : Notes)
      → Holds (λ x. u x || (v x && contains x h)) n (round h n)) where
  -- the second round
  second :
      (k : ℕ) (h0 h : List Bytes) (n : Notes)
      → ((x : Bytes) → contains x h ≡ (u x || (v x && contains x h0)))
      → (n' : Notes) × (converge (suc k) round h n ≡ (h, true, n'))
        × (n'.not_converged ≡ n.not_converged)
  unfolding converge
  second k h0 h n e = (
    (round h n).1,
    rw
        (contains-same_set (round h n).0 h
          λ x. (step h n).elements x ∙ (rw (e x) (stable (u x) (v x) (contains x h0))))
        refl,
    (step h n).quiet,
  )

  converge-Holds :
      (k : ℕ) (after : List Bytes) (n : Notes)
      → (h : List Bytes) × (n' : Notes) × (converge (suc (suc k)) round after n ≡ (h, true, n'))
        × Holds (λ x. u x || (v x && contains x after)) n (h, n')
  unfolding converge
  converge-Holds k after n = elim (Bool-cases (same_set (round after n).0 after)) [
    | inl same ↦ (
      after,
      (round after n).1,
      rw same refl,
      record {
        elements =
            λ x. sym (same_set-contains (round after n).0 after same x) ∙ (step after n).elements x;
        quiet = (step after n).quiet;
      },
    )
    | inr other ↦
        let (n', e, q) =
          second k after (round after n).0 (round after n).1 (step after n).elements in
        (
          (round after n).0,
          n',
          rw other e,
          record { elements = (step after n).elements; quiet = q ∙ (step after n).quiet },
        )
  ]

  pub loop_header-Holds :
      (a : ℕ) (after : List Bytes) (n : Notes)
      → Holds (λ x. u x || (v x && contains x after)) n (loop_header a round after n)
  unfolding loop_header
  loop_header-Holds a after n = let (h, n', e, holds) = converge-Holds 4094 after n in rw e holds
