-- ===== src/Bridge/Dispatcher/Selection.antt =====
-- What `pending` and `Dispatcher.deliver` may select: each event file gives one id.
use dispatcher_for_codex_age.Prelude.{
  ◌≤◌, String, ◌≡◌, refl, Bool, true, not, List, [], ◌∷◌, contains, count, filter, ◌==◌, ==_iff,
  string_eq, arith, ap,
}
use dispatcher_for_codex_age.Prelude.Result.{ok, >>=-eq-ok}
use dispatcher_for_codex_age.Prelude.Sort.{sort, count_if-sort, count-map}
use dispatcher_for_codex_age.Host.{Host}
use dispatcher_for_codex_age.Bridge.Contracts.{BridgeEvent}
use dispatcher_for_codex_age.Bridge.Store.{Store, json_name, read_event, read_all}
use dispatcher_for_codex_age.Bridge.Dispatcher.{ids_of}

pub read_event-name :
    (h : Host) (s : Store) (name : String) {item : String × BridgeEvent}
    → read_event h s name ≡ ok item
    → name ≡ json_name item.0
unfolding read_event
read_event-name h s name {item} p = ground (arith, ==_iff name (json_name item.0))

-- The ids that were read are at most as often there as their file names.
pub read_all-ids :
    (h : Host) (s : Store) (names : List String) {items : List (String × BridgeEvent)} (k : String)
    → read_all h s names ≡ ok items
    → count k (ids_of items) ≤ count (json_name k) names
unfolding read_all
read_all-ids h s [] k p = ground arith
read_all-ids h s (name ∷ names) {items} k p =
    let (item, first, q) = >>=-eq-ok (read_event h s name) _ p in
    let (rest, others, r) = >>=-eq-ok (read_all h s names) _ q in
    ground (
      arith,
      read_event-name h s name first,
      read_all-ids h s names k others,
      ==_iff k item.0,
      ==_iff (json_name k) name,
    )

pub count-sort_items :
    (le : String × BridgeEvent → String × BridgeEvent → Bool) (k : String)
    (items : List (String × BridgeEvent))
    → count k (ids_of (sort le items)) ≡ count k (ids_of items)
count-sort_items le k items = rw (count-map (λ (x : String × BridgeEvent). x.0) k (sort le items)) (
    rw (count-map (λ (x : String × BridgeEvent). x.0) k items)
      (count_if-sort le (λ x. k == x.0) items))

-- A filter on the ids leaves out the ids that fail it, and repeats none.
pub count-filter_ids :
    (old : List String) (k : String) (items : List (String × BridgeEvent))
    → (count k (ids_of (filter (λ item. not (contains item.0 old)) items)) ≤ count k (ids_of items))
      × (contains k old ≡ true
          → count k (ids_of (filter (λ item. not (contains item.0 old)) items)) ≡ 0)
count-filter_ids old k [] = (omega arith, λ h. refl)
count-filter_ids old k (item ∷ items) = ground (
  arith,
  count-filter_ids old k items,
  ==_iff k item.0,
  ap (λ (x : String). contains x old) {x = k} {y = item.0},
)

pub count-filter-le :
    (p : String → Bool) (k : String) (xs : List String) → count k (filter p xs) ≤ count k xs
count-filter-le p k [] = omega arith
count-filter-le p k (x ∷ xs) = ground (arith, count-filter-le p k xs)
