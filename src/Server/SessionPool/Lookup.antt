-- ===== src/Server/SessionPool/Lookup.antt =====
-- server/broadcast.go: the session that `selectSession` gives is one of the list, is not excluded
-- and has a segment in flight; the sessions of a list that are not among others become fewer.
use livepeer.Base.{
  ℕ, ◌+◌, ◌≤◌, ◌<◌, ◌≡◌, refl, ap, sym, ◌∙◌, subst, Bool, true, false, not, ◌&&◌, List, [], ◌∷◌,
  ◌++◌, Option, none, some, ◌==◌, ==_iff, if◌then◌else◌, Bool-cases, inl, inr, length, arith,
}
use livepeer.Server.Selection.{Session}
use livepeer.Server.Selection.MinLatency.Count.{count}
use livepeer.Server.SessionPool.{
  Flights, includes_session, remove_session_from_list, is_reusable, select_session,
}

-- The sessions of a list that are not among others.
abbrev pub unselected : List Session → List Session → ℕ
unselected [] selected = 0
unselected (t ∷ l) selected = (if includes_session selected t then 0 else 1) + unselected l selected

pub unselected-length : (l selected : List Session) → unselected l selected ≤ length l
unselected-length [] selected = omega arith
unselected-length (t ∷ l) selected = let ih = unselected-length l selected in ground (arith, ih)

includes_session-append :
    (l : List Session) (s t : Session)
    → includes_session (l ++ s ∷ []) t ≡ (if includes_session l t then true else s.id == t.id)
includes_session-append [] s t = ground arith
includes_session-append (u ∷ l) s t = elim (Bool-cases (u.id == t.id)) [
  | inl same ↦ rw (same)
  | inr other ↦ rw (other) (includes_session-append l s t)
]

includes_session_same :
    (l : List Session) (s t : Session) → s.id ≡ t.id → includes_session l s ≡ includes_session l t
includes_session_same [] s t e = refl
includes_session_same (u ∷ l) s t e =
    rw (includes_session_same l s t e)
      (ap (λ n. if u.id == n then true else includes_session l t) e)

-- A session that is not included does not stand in the list.
pub count-includes_session :
    (l : List Session) (s : Session) → includes_session l s ≡ false → count s.id l ≡ 0
count-includes_session [] s e = refl
count-includes_session (t ∷ l) s e = elim (Bool-cases (t.id == s.id)) [
  | inl same ↦ ground (arith, same, e)
  | inr other ↦
      let rest : includes_session l s ≡ false = ground (arith, other, e) in
      let ih = count-includes_session l s rest in ground (arith, other, ih)
]

head-append :
    (selected : List Session) (s t : Session)
    → (if includes_session (selected ++ s ∷ []) t then 0 else 1)
      ≤ (if includes_session selected t then 0 else 1)
head-append selected s t = let e = includes_session-append selected s t in ground (arith, e)

pub unselected-append_le :
    (l selected : List Session) (s : Session)
    → unselected l (selected ++ s ∷ []) ≤ unselected l selected
unselected-append_le [] selected s = omega arith
unselected-append_le (t ∷ l) selected s =
    omega (arith, head-append selected s t, unselected-append_le l selected s)

-- A session of the list that is selected makes the unselected ones fewer.
pub unselected-append :
    (l selected : List Session) (s : Session)
    → 1 ≤ count s.id l
    → includes_session selected s ≡ false
    → unselected l (selected ++ s ∷ []) < unselected l selected
unselected-append [] selected s h e = absurd (omega arith)
unselected-append (t ∷ l) selected s h e = elim (Bool-cases (s.id == t.id)) [
  | inl same ↦
      let ids : s.id ≡ t.id = (==_iff s.id t.id).0 same in
      let before : includes_session selected t ≡ false =
        sym (includes_session_same selected s t ids) ∙ e in
      let after : includes_session (selected ++ s ∷ []) t ≡ true =
        includes_session-append selected s t ∙ rw (before) same in
      rw (before, after) (omega (arith, unselected-append_le l selected s))
  | inr other ↦
      let here : 1 ≤ count s.id l = ground (arith, other, h) in
      omega (arith, head-append selected s t, unselected-append l selected s here e)
]

pub count-remove_session_from_list :
    (k : ℕ) (l : List Session) (s : Session) → count k (remove_session_from_list l s) ≤ count k l
count-remove_session_from_list k [] s = omega arith
count-remove_session_from_list k (t ∷ l) s =
    let ih = count-remove_session_from_list k l s in ground (arith, ih)

remove-unselected_le :
    (l selected : List Session) (s : Session)
    → unselected (remove_session_from_list l s) selected ≤ unselected l selected
remove-unselected_le [] selected s = omega arith
remove-unselected_le (t ∷ l) selected s =
    let ih = remove-unselected_le l selected s in ground (arith, ih)

-- So does one that is removed from the list.
pub remove-unselected :
    (l selected : List Session) (s : Session)
    → 1 ≤ count s.id l
    → includes_session selected s ≡ false
    → unselected (remove_session_from_list l s) selected < unselected l selected
remove-unselected [] selected s h e = absurd (omega arith)
remove-unselected (t ∷ l) selected s h e = elim (Bool-cases (t.id == s.id)) [
  | inl same ↦
      let before : includes_session selected t ≡ false =
        includes_session_same selected t s ((==_iff t.id s.id).0 same) ∙ e in
      rw (same, before) (omega (arith, remove-unselected_le l selected s))
  | inr other ↦
      let here : 1 ≤ count s.id l = ground (arith, other, h) in
      let ih = remove-unselected l selected s here e in rw (other) (omega (arith, ih))
]

-- What `selectSession` gives.
pub record IsReused (now dur_mult : ℕ) (flights : Flights) (l exclude : List Session) (s : Session)
    : Type 0 where
  pub listed : 1 ≤ count s.id l
  pub free : includes_session exclude s ≡ false
  pub flying : is_reusable now dur_mult (flights s.id) ≡ true

both_true : (a b : Bool) → (a && not b) ≡ true → (a ≡ true) × (b ≡ false)
both_true true true h = ground (arith, h)
both_true true false h = (refl, refl)
both_true false b h = ground (arith, h)

first_or_rest :
    (P : Session → Type 0) (t s : Session) (rest : Option Session) (b : Bool)
    → (b ≡ true → P t)
    → (rest ≡ some s → P s)
    → (if b then some t else rest) ≡ some s
    → P s
first_or_rest P t s rest true here there e =
    subst P (ap (λ o. elim o [ none ↦ t | some x ↦ x ]) e) (here refl)
first_or_rest P t s rest false here there e = there e

pub select_session-IsReused :
    (now dur_mult : ℕ) (flights : Flights) (l exclude : List Session) (s : Session)
    → select_session now flights l exclude dur_mult ≡ some s
    → IsReused now dur_mult flights l exclude s
unfolding select_session
select_session-IsReused now m flights [] exclude s e = ground (arith, e)
select_session-IsReused now m flights (t ∷ l) exclude s e =
    let rest = select_session now flights l exclude m in
    let b = is_reusable now m (flights t.id) && not (includes_session exclude t) in
    first_or_rest (IsReused now m flights (t ∷ l) exclude) t s rest b
      (λ h.
        let both = both_true _ _ h in
        record {
          listed = let self = (==_iff t.id t.id).1 refl in ground (arith, self);
          free = both.1;
          flying = both.0;
        })
      (λ h.
        let ih = select_session-IsReused now m flights l exclude s h in
        record { listed = omega (arith, ih.listed); free = ih.free; flying = ih.flying })
      e
