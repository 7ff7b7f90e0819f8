-- ===== src/Eth/BlockWatch/Stack/Database.antt =====
-- common/db.go: the store of block headers, as the rows that its queries list: by number, the highest
-- first. SQLite itself is taken to execute every statement; the hash is the primary key.
use livepeer.Base.{ℕ, ◌≡◌, refl, Bool, false, List, [], ◌∷◌, ltb, ◌==◌, ◌||◌, if◌then◌else◌, arith}
use livepeer.Eth.BlockWatch.Stack.{MiniHeader, Answer, answer, fail, other, MiniHeaderStore}
use livepeer.Eth.BlockWatch.Stack.Refine.{
  head, stored, without_hash, IsFreshHash, IsAbove, StoreLaws,
}

-- The primary key.
abbrev has_hash : ℕ → List MiniHeader → Bool
has_hash k [] = false
has_hash k (h ∷ hs) = h.hash == k || has_hash k hs

-- The place of a row in `ORDER BY number DESC`.
abbrev insert_row : MiniHeader → List MiniHeader → List MiniHeader
insert_row h [] = h ∷ []
insert_row h (h' ∷ hs) =
    let rest = insert_row h hs in if ltb h.number h'.number then h' ∷ rest else h ∷ h' ∷ hs

-- `InsertMiniHeader`
abbrev insert_mini_header : MiniHeader → List MiniHeader → Answer (List MiniHeader)
insert_mini_header h hs =
    if has_hash h.hash hs then fail other else answer (insert_row (stored h) hs)

-- `FindLatestMiniHeader`, `FindAllMiniHeadersSortedByNumber`, `InsertMiniHeader` and
-- `DeleteMiniHeader`
abbrev pub db_store : MiniHeaderStore (List MiniHeader)
db_store = record {
  find_latest = λ hs. answer (head hs);
  find_all = λ hs. answer hs;
  insert = insert_mini_header;
  delete = λ k hs. answer (without_hash k hs);
}

has_hash-fresh : (k : ℕ) (hs : List MiniHeader) → IsFreshHash k hs → has_hash k hs ≡ false
has_hash-fresh k [] f = refl
has_hash-fresh k (h ∷ hs) f = ground (arith, has_hash-fresh k hs f.1, f.0)

insert_row-above :
    (h : MiniHeader) (hs : List MiniHeader)
    → IsAbove h hs
    → insert_row (stored h) hs ≡ stored h ∷ hs
insert_row-above h [] a = refl
insert_row-above h (h' ∷ hs) a =
    let lower = a.0 in let e : ltb h.number h'.number ≡ false = ground arith in rw (e)

unfoldable pub db_laws : StoreLaws (List MiniHeader) db_store
unfolding has_hash-fresh insert_row-above
db_laws = record {
  view = λ hs. hs;
  latest = λ hs. refl;
  all = λ hs. refl;
  insert = λ h hs above fresh.
      (stored h ∷ hs, rw (has_hash-fresh h.hash hs fresh, insert_row-above h hs above), refl);
  delete = λ k hs. (without_hash k hs, refl, refl);
}
