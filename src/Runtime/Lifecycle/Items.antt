-- ===== src/Runtime/Lifecycle/Items.antt =====
-- The table of the items: what is found after an entry is set, and when all items are complete.
use dispatcher_for_codex_age.Prelude.{
  String, ◌≡◌, refl, ◌↔◌, true, false, Option, none, some, List, [], ◌∷◌, any, ◌==◌, ==_iff,
  ==_refl, string_eq, ap, contains, is_unique, arith,
}
use dispatcher_for_codex_age.Runtime.Lifecycle.{
  Kind, item_started, item_updated, item_completed, Items, find_item, set_item, item_problem,
  is_unfinished,
}
use dispatcher_for_codex_age.Runtime.Lifecycle.Grammar.{is_item, closes, is_history, continues}

abbrev pub names : Items → List String
names [] = []
names ((i, t, k) ∷ items) = i ∷ names items

pub find-set_same :
    (id type : String) (k : Kind) (items : Items)
    → find_item id (set_item id type k items) ≡ some (type, k)
find-set_same id type k [] = ground (arith, ==_refl id)
find-set_same id type k ((i, t, j) ∷ items) =
    ground (arith, ==_refl id, find-set_same id type k items)

pub find-set_other :
    (id other type : String) (k : Kind) (items : Items)
    → (other == id) ≡ false
    → find_item other (set_item id type k items) ≡ find_item other items
find-set_other id other type k [] h = ground arith
find-set_other id other type k ((i, t, j) ∷ items) h =
    ground
      (arith, ==_iff id i, ==_iff other i, ==_iff other id, find-set_other id other type k items h)

contains-set :
    (id other type : String) (k : Kind) (items : Items)
    → (other == id) ≡ false
    → contains other (names (set_item id type k items)) ≡ contains other (names items)
contains-set id other type k [] h = ground arith
contains-set id other type k ((i, t, j) ∷ items) h =
    ground
      (arith, ==_iff id i, ==_iff other i, ==_iff other id, contains-set id other type k items h)

pub names-set_unique :
    (id type : String) (k : Kind) (items : Items)
    → is_unique (names items) ≡ true
    → is_unique (names (set_item id type k items)) ≡ true
names-set_unique id type k [] h = refl
names-set_unique id type k ((i, t, j) ∷ items) h = ground (
  arith,
  ==_iff id i,
  ==_iff i id,
  contains-set id i type k items,
  names-set_unique id type k items,
)

find-absent :
    (id : String) (items : Items) → contains id (names items) ≡ false → find_item id items ≡ none
find-absent id [] h = refl
find-absent id ((i, t, k) ∷ items) h = ground (arith, find-absent id items)

pub finished-continues :
    (id : String) (items : Items)
    → any is_unfinished items ≡ false
    → continues (find_item id items) [] ≡ true
unfolding continues is_history
finished-continues id [] h = refl
finished-continues id ((i, t, k) ∷ items) h = ground (arith, finished-continues id items)

rest_continues :
    (i t : String) (k : Kind) (items : Items)
    → contains i (names items) ≡ false
    → ((id : String) → continues (find_item id ((i, t, k) ∷ items)) [] ≡ true)
    → (id : String) → continues (find_item id items) [] ≡ true
unfolding continues is_history closes
rest_continues i t k items absent h id = ground (
  arith,
  find-absent i items absent,
  ap (λ a. find_item a items) {x = id} {y = i},
  ==_iff id i,
  h id,
)

pub continues-finished :
    (items : Items)
    → is_unique (names items) ≡ true
    → ((id : String) → continues (find_item id items) [] ≡ true)
    → any is_unfinished items ≡ false
unfolding continues is_history closes
continues-finished [] u h = refl
continues-finished ((i, t, k) ∷ items) u h =
    let rest =
      continues-finished items (ground arith) (rest_continues i t k items (ground arith) h) in
    ground (arith, rest, h i, ==_refl i)

-- One more event of an item: the code's test of it, and what may follow.
pub continues_iff :
    (o : Option (String × Kind)) (t : String) (k : Kind) (h : List (String × Kind))
    → is_item k ≡ true
    → (continues o ((t, k) ∷ h) ≡ true)
      ↔ ((item_problem o t k ≡ none) × (continues (some (t, k)) h ≡ true))
unfolding continues is_history closes item_problem
continues_iff none t item_started h p = (λ q. (refl, q), λ q. q.1)
continues_iff none t item_updated h p = (λ q. cc, λ q. cc)
continues_iff none t item_completed h p = (λ q. (refl, ground arith), λ q. ground (arith, q.1))
continues_iff none t k h p = (λ q. cc, λ q. cc)
continues_iff (some (s, j)) t item_started h p = (λ q. ground arith, λ q. ground arith)
continues_iff (some (s, j)) t item_updated h p =
    let same = ap (λ a. closes a h) {x = s} {y = t} in
    (
      λ q. ground (arith, ==_iff s t, ==_iff t s, same),
      λ q. ground (arith, ==_iff s t, ==_iff t s, same),
    )
continues_iff (some (s, j)) t item_completed h p =
    (λ q. ground (arith, ==_iff s t, ==_iff t s), λ q. ground (arith, ==_iff s t, ==_iff t s))
continues_iff (some (s, j)) t k h p = (λ q. cc, λ q. cc)
