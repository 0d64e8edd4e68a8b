-- ===== src/Borrow/Liveness/Exact.antt =====
-- The analysis of liveness against the ways through a function.
use uinx.Prelude.{
  Bool, true, ◌&&◌, ◌||◌, List, Bytes, contains, ◌≡◌, ◌↔◌, ◌⊎◌, inl, inr, sym, ◌∙◌, arith,
}
use uinx.Borrow.Tree.{Stmt}
use uinx.Borrow.Liveness.{Plane, Notes, liveness_stmt}
use uinx.Borrow.Liveness.Paths.{Exit, used, ended, broke, continued, Way, LoopsBreak}
use uinx.Borrow.Liveness.Summary.{ways, weigh}
use uinx.Borrow.Liveness.Ways.{Way-ways, ways-Way}
use uinx.Borrow.Liveness.Correct.{liveness_stmt-Before}

-- The four exits are weighed by what is live at each.
weigh_iff :
    (f : Exit → Bool) (a b c : Bool)
    → (weigh f a b c ≡ true) ↔ (
        (f used ≡ true)
        ⊎ (((f ended ≡ true) × (a ≡ true))
            ⊎ (((f broke ≡ true) × (b ≡ true)) ⊎ ((f continued ≡ true) × (c ≡ true)))))
weigh_iff f a b c = by_exits (f used) (f ended) (f broke) (f continued)
  where
    by_exits :
        (fu fe fb fc : Bool)
        → ((fu || ((fe && a) || ((fb && b) || (fc && c)))) ≡ true) ↔ (
            (fu ≡ true)
            ⊎ (((fe ≡ true) × (a ≡ true))
                ⊎ (((fb ≡ true) × (b ≡ true)) ⊎ ((fc ≡ true) × (c ≡ true)))))
    by_exits fu fe fb fc = ground arith

module _ (p : Plane) where
  -- A name is live before a statement where a way leads from there to a use of it, or to the end of
  -- the statement, a `break` or a `continue` behind which it is live.
  abbrev pub LiveBefore : Bytes → Stmt → List Bytes → List Bytes → List Bytes → Type 0
  LiveBefore x s after break' continue' =
      Way p x s used
      ⊎ ((Way p x s ended × (contains x after ≡ true))
          ⊎ ((Way p x s broke × (contains x break' ≡ true))
              ⊎ (Way p x s continued × (contains x continue' ≡ true))))

  abbrev WeighedBefore : Bytes → Stmt → List Bytes → List Bytes → List Bytes → Type 0
  WeighedBefore x s after break' continue' =
      (ways p x s used ≡ true)
      ⊎ (((ways p x s ended ≡ true) × (contains x after ≡ true))
          ⊎ (((ways p x s broke ≡ true) × (contains x break' ≡ true))
              ⊎ ((ways p x s continued ≡ true) × (contains x continue' ≡ true))))

  -- What a way leads to a use of, or to a live exit, is found live before every statement.
  pub liveness_stmt-LiveBefore :
      (s : Stmt) (after break' continue' : List Bytes) (n : Notes) (x : Bytes)
      → LiveBefore x s after break' continue'
      → contains x (liveness_stmt p s after break' continue' n).0 ≡ true
  liveness_stmt-LiveBefore s after break' continue' n x l =
      let before = liveness_stmt-Before p s after break' continue' n in
      before.elements x ∙ (weigh_iff (ways p x s) _ _ _).1 (given l)
    where
      given : LiveBefore x s after break' continue' → WeighedBefore x s after break' continue'
      given (inl u) = inl (Way-ways p x u)
      given (inr (inl (e, l))) = inr (inl (Way-ways p x e, l))
      given (inr (inr (inl (e, l)))) = inr (inr (inl (Way-ways p x e, l)))
      given (inr (inr (inr (e, l)))) = inr (inr (inr (Way-ways p x e, l)))

  -- Where in every `loop` a way of the name leads to a `break`, or none to the end of a round,
  -- `liveness_stmt` finds the name live before a statement exactly when it is live there by the ways
  -- through the statement, whatever is live behind it and around it; and its loops over headers
  -- converge.
  pub liveness_stmt_iff :
      (s : Stmt) (after break' continue' : List Bytes) (n : Notes) (x : Bytes)
      → LoopsBreak p x s
      → ((contains x (liveness_stmt p s after break' continue' n).0 ≡ true)
          ↔ LiveBefore x s after break' continue')
        × ((liveness_stmt p s after break' continue' n).1.not_converged ≡ n.not_converged)
  liveness_stmt_iff s after break' continue' n x k =
      let before = liveness_stmt-Before p s after break' continue' n in
      (
        (
          λ h. found ((weigh_iff (ways p x s) _ _ _).0 (sym (before.elements x) ∙ h)),
          liveness_stmt-LiveBefore s after break' continue' n x,
        ),
        before.quiet,
      )
    where
      found : WeighedBefore x s after break' continue' → LiveBefore x s after break' continue'
      found (inl u) = inl (ways-Way p x s used k u)
      found (inr (inl (e, l))) = inr (inl (ways-Way p x s ended k e, l))
      found (inr (inr (inl (e, l)))) = inr (inr (inl (ways-Way p x s broke k e, l)))
      found (inr (inr (inr (e, l)))) = inr (inr (inr (ways-Way p x s continued k e, l)))
