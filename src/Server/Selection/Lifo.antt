-- ===== src/Server/Selection/Lifo.antt =====
-- server/selection.go: the LIFO selector is one that the pools can use.
use livepeer.Base.{
  ℕ, suc, ◌+◌, ◌≡◌, ◌≢◌, refl, ap, List, [], ◌∷◌, Option, none, some, length, arith,
}
use livepeer.Server.Selection.{
  Session, LifoSelector, add_lifo, complete_lifo, select_lifo, keep_first,
}
use livepeer.Server.Selection.MinLatency.Count.{count, count_some, one_of, count-append}
use livepeer.Server.Selection.Selector.{Selector, SelectorLaws, size_some}

-- The methods of `LIFOSelector`, with `Size` and `Clear`.
abbrev pub lifo_selector : Selector LifoSelector
lifo_selector = record {
  add = add_lifo;
  complete = complete_lifo;
  select = select_lifo;
  size = length;
  clear = λ l. [];
}

-- What is kept, however the rest of the selector was left.
count-keep_first :
    (k : ℕ) (s : Session) (r : Option Session × LifoSelector) (n : ℕ)
    → count_some k r.0 + count k r.1 ≡ n
    → (r.0 ≡ none → r.1 ≡ [])
    → count_some k (keep_first s r).0 + count k (keep_first s r).1 ≡ one_of k s + n
count-keep_first k s (none, l) n e h = omega (arith, ap (count k) (h refl))
count-keep_first k s (some t, l) n e h = omega arith

length-keep_first :
    (s : Session) (r : Option Session × LifoSelector) (n : ℕ)
    → (r.0 ≡ none → n ≡ 0)
    → n ≡ size_some r.0 + length r.1
    → suc n ≡ size_some (keep_first s r).0 + length (keep_first s r).1
length-keep_first s (none, l) n e h = omega (arith, e refl)
length-keep_first s (some t, l) n e h = omega arith

keep_first_some : (s : Session) (r : Option Session × LifoSelector) → (keep_first s r).0 ≢ none
keep_first_some s (none, l) e = ground (arith, e)
keep_first_some s (some t, l) e = ground (arith, e)

select_lifo-none : (l : LifoSelector) → (select_lifo l).0 ≡ none → l ≡ []
unfolding select_lifo
select_lifo-none [] e = refl
select_lifo-none (s ∷ l) e = absurd (keep_first_some s (select_lifo l) e)

select_lifo_left : (l : LifoSelector) → (select_lifo l).0 ≡ none → (select_lifo l).1 ≡ []
unfolding select_lifo
select_lifo_left [] e = refl
select_lifo_left (s ∷ l) e = absurd (keep_first_some s (select_lifo l) e)

pub count-select_lifo :
    (k : ℕ) (l : LifoSelector)
    → count_some k (select_lifo l).0 + count k (select_lifo l).1 ≡ count k l
unfolding select_lifo
count-select_lifo k [] = refl
count-select_lifo k (s ∷ l) =
    count-keep_first k s (select_lifo l) (count k l) (count-select_lifo k l) (select_lifo_left l)

pub length-select_lifo :
    (l : LifoSelector) → length l ≡ size_some (select_lifo l).0 + length (select_lifo l).1
unfolding select_lifo
length-select_lifo [] = refl
length-select_lifo (s ∷ l) =
    length-keep_first s (select_lifo l) (length l) (λ h. ap length (select_lifo-none l h))
      (length-select_lifo l)

pub count-add_lifo :
    (k : ℕ) (l : List Session) (s : LifoSelector) → count k (add_lifo l s) ≡ count k l + count k s
unfolding add_lifo
count-add_lifo k l s = count-append k l s

pub count-complete_lifo :
    (k : ℕ) (x : Session) (s : LifoSelector) → count k (complete_lifo x s) ≡ one_of k x + count k s
unfolding complete_lifo
count-complete_lifo k x s = omega (arith, count-append k s (x ∷ []))

-- `LIFOSelector` keeps what the pools rely on.
abbrev pub lifo_laws : SelectorLaws lifo_selector
lifo_laws = record {
  IsGood = λ s. Unit;
  holds = count;
  add-IsGood = λ l s h. tt;
  complete-IsGood = λ x s h. tt;
  select-IsGood = λ s h. tt;
  clear-IsGood = λ s h. tt;
  holds-add = λ k l s h. count-add_lifo k l s;
  holds-complete = λ k x s h. count-complete_lifo k x s;
  holds-select = λ k s h. count-select_lifo k s;
  holds-clear = λ k s h. refl;
  size-select = λ s h. length-select_lifo s;
}
