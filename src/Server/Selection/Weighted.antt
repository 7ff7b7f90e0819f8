-- ===== src/Server/Selection/Weighted.antt =====
-- server/selection.go: what the selectors choose.
use livepeer.Base.{
  ◌∙◌, true, false, ℕ, ◌+◌, ◌-◌, ◌≤◌, ◌<◌, ◌≡◌, refl, ap, List, [], ◌∷◌, none, some, arith,
  Option-cases, Bool-cases, inl, inr, leb,
}
use livepeer.Server.Selection.{
  Session, without_stake, next_index, pick, complete_lifo, select_lifo, keep_first,
}

-- The stakes of the recipients of some sessions, each recipient counted once.
unfoldable pub weight : (ℕ → ℕ) → List Session → ℕ
weight stakes [] = 0
weight stakes (s ∷ sessions) = elim s.recipient [
  | none ↦ weight stakes sessions
  | some addr ↦ stakes addr + weight (without_stake addr stakes) sessions
]

module _ (stakes : ℕ → ℕ) (r : ℕ) (s : Session) (sessions : List Session) where
  pub pick-skipped :
      s.recipient ≡ none
      → (weight stakes (s ∷ sessions) ≡ weight stakes sessions)
        × (pick stakes r (s ∷ sessions) ≡ next_index (pick stakes r sessions))
  unfolding weight pick
  pick-skipped h = (rw (h, weight), rw (h, pick))

  pub pick-passed :
      (addr : ℕ)
      → s.recipient ≡ some addr
      → leb r (stakes addr) ≡ false
      → pick stakes r (s ∷ sessions)
        ≡ next_index (pick (without_stake addr stakes) (r - stakes addr) sessions)
  unfolding pick
  pick-passed addr h goes = rw (h, pick, goes)

  pub pick-stopped :
      (addr : ℕ)
      → s.recipient ≡ some addr
      → leb r (stakes addr) ≡ true
      → pick stakes r (s ∷ sessions) ≡ some (0, s)
  unfolding pick
  pick-stopped addr h stops = rw (h, pick, stops) (ap (λ o. some (0, record s { recipient = o })) h)

  weight-counted :
      (addr : ℕ)
      → s.recipient ≡ some addr
      → weight stakes (s ∷ sessions) ≡ stakes addr + weight (without_stake addr stakes) sessions
  unfolding weight
  weight-counted addr h = rw (h, weight)

-- A number between 1 and the stakes of all recipients, each counted once, chooses a session.
pub pick_succeeds :
    (stakes : ℕ → ℕ) (r : ℕ) (sessions : List Session)
    → 0 < r
    → r ≤ weight stakes sessions
    → (i : ℕ) × (s : Session) × (pick stakes r sessions ≡ some (i, s))
pick_succeeds stakes r [] positive bound = absurd (unfold weight in omega arith)
pick_succeeds stakes r (s ∷ sessions) positive bound = elim (Option-cases s.recipient) [
  | inl h ↦
      let (counts, skips) = pick-skipped stakes r s sessions h in
      let (i, t, e) = pick_succeeds stakes r sessions positive (omega arith) in
      (i + 1, t, skips ∙ ap next_index e)
  | inr (addr, h) ↦ elim (Bool-cases (leb r (stakes addr))) [
    | inl stops ↦ (0, s, pick-stopped stakes r s sessions addr h stops)
    | inr goes ↦
        let counts = weight-counted stakes r s sessions addr h in
        let (i, t, e) =
          pick_succeeds (without_stake addr stakes) (r - stakes addr) sessions (ground arith)
            (omega arith) in
        (i + 1, t, pick-passed stakes r s sessions addr h goes ∙ ap next_index e)
  ]
]

-- The last session that was completed is selected first, and the others stay.
pub select_lifo-complete_lifo :
    (s : Session) (l : List Session) → select_lifo (complete_lifo s l) ≡ (some s, l)
unfolding select_lifo complete_lifo
select_lifo-complete_lifo s [] = refl
select_lifo-complete_lifo s (t ∷ l) = ap (keep_first t) (select_lifo-complete_lifo s l)
