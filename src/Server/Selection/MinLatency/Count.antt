-- ===== src/Server/Selection/MinLatency/Count.antt =====
-- server/selection.go: how often a session stands in a slice, and the removal by a swap.
use livepeer.Server.Selection.Weighted.{pick-skipped, pick-passed, pick-stopped}
use livepeer.Base.{
  subst, ℕ, zero, suc, ◌+◌, ◌-◌, ◌≤◌, ◌<◌, ◌≡◌, ◌≢◌, refl, ap, sym, ◌∙◌, List, [], ◌∷◌, ◌++◌,
  Option, none, some, ◌==◌, if◌then◌else◌, length, get_or, set, take, Bool-cases, inl, inr, arith,
  length-set, get_or-set_self, get_or-set_ne, Option-cases, leb,
}
use livepeer.Server.Selection.{Session, pick, next_index, without_stake}
use livepeer.Server.Selection.MinLatency.{remove_unknown_session}

-- 1 for a session with this number.
abbrev pub one_of : ℕ → Session → ℕ
one_of k s = if k == s.id then 1 else 0

abbrev pub count : ℕ → List Session → ℕ
count k [] = 0
count k (s ∷ l) = one_of k s + count k l

abbrev pub count_some : ℕ → Option Session → ℕ
count_some k none = 0
count_some k (some s) = one_of k s

pub count-append : (k : ℕ) (l m : List Session) → count k (l ++ m) ≡ count k l + count k m
count-append k [] m = omega arith
count-append k (s ∷ l) m = omega (arith, count-append k l m)

count-set :
    (k i : ℕ) (l : List Session) (v d : Session)
    → i < length l
    → count k (set l i v) + one_of k (get_or l i d) ≡ count k l + one_of k v
count-set k i [] v d h = absurd (omega arith)
count-set k zero (s ∷ l) v d h = omega arith
count-set k (suc i) (s ∷ l) v d h = omega (arith, count-set k i l v d (omega arith))

count-take_init :
    (k n : ℕ) (l : List Session) (d : Session)
    → length l ≡ suc n
    → count k (take n l) + one_of k (get_or l n d) ≡ count k l
count-take_init k n [] d h = absurd (omega arith)
count-take_init k zero (s ∷ []) d h = omega arith
count-take_init k zero (s ∷ t ∷ l) d h = absurd (omega arith)
count-take_init k (suc n) (s ∷ l) d h = omega (arith, count-take_init k n l d (omega arith))

-- Either index of the swap holds the removed session until it is cut off.
swap-removed :
    (i n : ℕ) (l : List Session) (a z d : Session)
    → i ≤ n
    → length l ≡ suc n
    → get_or l i d ≡ a
    → get_or l n d ≡ z
    → (get_or (set l n a) i d ≡ a) × (get_or (set (set l n a) i z) n d ≡ a)
swap-removed i n l a z d h len at_i at_n = elim (Bool-cases (i == n)) [
  | inl same ↦
      let i_eq : i ≡ n = ground arith in
      let first = get_or-set_self l n a d (omega arith) in
      (
        rw (i_eq) first,
        rw (i_eq) (
            get_or-set_self (set l n a) n z d (omega (arith, length-set l n a))
            ∙ sym at_n
            ∙ ap (λ j. get_or l j d) (sym i_eq)
            ∙ at_i),
      )
  | inr other ↦
      let apart : n ≢ i = λ e. ground (arith, e, other) in
      (
        get_or-set_ne l n i a d apart ∙ at_i,
        get_or-set_ne (set l n a) i n z d (λ e. apart (sym e))
            ∙ get_or-set_self l n a d (omega arith),
      )
]

-- A session that is removed is one less, and the others stay.
pub count-remove_unknown_session :
    (k i : ℕ) (l : List Session) (d : Session)
    → i < length l
    → one_of k (get_or l i d) + count k (remove_unknown_session i d l) ≡ count k l
count-remove_unknown_session k i [] d h = absurd (omega arith)
count-remove_unknown_session k i (s ∷ m) d h =
    let l : List Session = s ∷ m in
    let n = length m in
    let a = get_or l i d in
    let z = get_or l n d in
    let l1 = set l n a in
    let l2 = set l1 i z in
    let (at_i, at_n) = swap-removed i n l a z d (omega arith) refl refl refl in
    let init : suc n - 1 ≡ n = omega arith in
    rw (init) (
      omega (
        arith,
        count-set k n l a d (omega arith),
        count-set k i l1 z d (omega (arith, length-set l n a)),
        count-take_init k n l2 d (omega (arith, length-set l n a, length-set l1 i z)),
        ap (one_of k) at_i,
        ap (one_of k) at_n,
      ))

-- A session that was chosen with its index stands there.
abbrev pub IsAt : List Session → Option (ℕ × Session) → Type 0
IsAt l none = Unit
IsAt l (some (i, s)) = (i < length l) × ((d : Session) → get_or l i d ≡ s)

next_index-IsAt :
    (t : Session) (l : List Session) (o : Option (ℕ × Session))
    → IsAt l o
    → IsAt (t ∷ l) (next_index o)
next_index-IsAt t l none p = tt
next_index-IsAt t l (some (i, s)) (h, e) =
    let step : i + 1 ≡ suc i = omega arith in (omega arith, λ d. rw (step) (e d))

pub pick-IsAt : (stakes : ℕ → ℕ) (r : ℕ) (l : List Session) → IsAt l (pick stakes r l)
pick-IsAt stakes r [] = unfold pick in tt
pick-IsAt stakes r (s ∷ l) = elim (Option-cases s.recipient) [
  | inl h ↦
      subst (IsAt (s ∷ l)) (sym (pick-skipped stakes r s l h).1)
        (next_index-IsAt s l (pick stakes r l) (pick-IsAt stakes r l))
  | inr (addr, h) ↦ elim (Bool-cases (leb r (stakes addr))) [
    | inl stops ↦
        subst (IsAt (s ∷ l)) (sym (pick-stopped stakes r s l addr h stops)) (omega arith, λ d. refl)
    | inr goes ↦
        let rest = pick (without_stake addr stakes) (r - stakes addr) l in
        subst (IsAt (s ∷ l)) (sym (pick-passed stakes r s l addr h goes))
          (next_index-IsAt s l rest (pick-IsAt (without_stake addr stakes) (r - stakes addr) l))
  ]
]

pub get_or_default :
    (l : List Session) (i : ℕ) (d d' : Session) → i < length l → get_or l i d ≡ get_or l i d'
get_or_default [] i d d' h = absurd (omega arith)
get_or_default (s ∷ l) zero d d' h = refl
get_or_default (s ∷ l) (suc i) d d' h = get_or_default l i d d' (omega arith)
