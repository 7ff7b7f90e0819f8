-- ===== src/Core/Playlist/Search.antt =====
-- core/playlistmanager.go: what the binary search finds.
use livepeer.Base.{
  ℕ, zero, suc, ◌+◌, ◌/◌, ◌≤◌, ◌<◌, ◌≡◌, ap, ◌∙◌, Bool, true, false, ltb, ltb→lt, Bool-cases, inl,
  inr, arith,
}
use livepeer.Core.Playlist.{search}

-- The first index at which a test holds, or the number of indices.
pub record IsFirst (f : ℕ → Bool) (n i : ℕ) : Type 0 where
  pub bound : i ≤ n
  pub below : (j : ℕ) → j < i → f j ≡ false
  pub here : i < n → f i ≡ true

abbrev pub IsMonotone : (ℕ → Bool) → ℕ → Type 0
IsMonotone f n = (i j : ℕ) → i ≤ j → j < n → f i ≡ true → f j ≡ true

-- The first index is between the two bounds.
pub record IsBetween (f : ℕ → Bool) (n lo hi : ℕ) : Type 0 where
  pub order : lo ≤ hi
  pub bound : hi ≤ n
  pub below : (j : ℕ) → j < lo → f j ≡ false
  pub above : hi < n → f hi ≡ true

module _ (f : ℕ → Bool) (n : ℕ) (mono : IsMonotone f n) where
  lower :
      (lo hi : ℕ)
      → IsBetween f n lo hi
      → lo < hi
      → f ((lo + hi) / 2) ≡ true
      → IsBetween f n lo ((lo + hi) / 2)
  lower lo hi p h e = record {
    order = omega (arith, h);
    bound = let b = p.bound in omega (arith, h, b);
    below = p.below;
    above = λ _. e;
  }

  upper :
      (lo hi : ℕ)
      → IsBetween f n lo hi
      → lo < hi
      → f ((lo + hi) / 2) ≡ false
      → IsBetween f n ((lo + hi) / 2 + 1) hi
  upper lo hi p h e = record {
    order = omega (arith, h);
    bound = p.bound;
    below = λ j less. elim (Bool-cases (f j)) [
      | inl yes_there ↦
          let b = p.bound in
          let up = mono j ((lo + hi) / 2) (omega (arith, less)) (omega (arith, h, b)) yes_there in
          absurd (ground (arith, up, e))
      | inr not_there ↦ not_there
    ];
    above = p.above;
  }

  pub search-IsFirst :
      (fuel lo hi : ℕ) → IsBetween f n lo hi → hi ≤ lo + fuel → IsFirst f n (search f fuel lo hi)
  unfolding search
  search-IsFirst zero lo hi p h =
      let order = p.order in
      let same : lo ≡ hi = omega (arith, h, order) in
      record {
        bound = let b = p.bound in omega (arith, b, same);
        below = p.below;
        here = λ less. ap f same ∙ p.above (omega (arith, less, same));
      }
  search-IsFirst (suc fuel) lo hi p h = elim (Bool-cases (ltb lo hi)) [
    | inl less ↦
        let lt = ltb→lt lo hi less in
        elim (Bool-cases (f ((lo + hi) / 2))) [
          | inl holds ↦
              rw (less, holds)
                (search-IsFirst fuel lo ((lo + hi) / 2) (lower lo hi p lt holds)
                  (omega (arith, h, lt)))
          | inr fails ↦
              rw (less, fails)
                (search-IsFirst fuel ((lo + hi) / 2 + 1) hi (upper lo hi p lt fails)
                  (omega (arith, h, lt)))
        ]
    | inr done ↦
        let order = p.order in
        let same : lo ≡ hi = ground (arith, done, order) in
        rw (done) (search-IsFirst fuel lo hi p (omega (arith, same)))
  ]
