-- ===== src/Batch/Retry/Requested.antt =====
-- The keys that a request for a retry plan asks for, and those of the planned entries.
use dispatcher_for_codex_age.Prelude.{
  ◌≤◌, String, ◌≡◌, refl, ap, true, List, [], ◌∷◌, map, all, contains, count, is_unique,
  count_unique, ==_iff, string_eq, list_eq, arith,
}
use dispatcher_for_codex_age.Prelude.Result.{ok, OnOk, OnOk->>=, of_ok}
use dispatcher_for_codex_age.Batch.{
  LoadedPlan, AttemptSpec, RetryPlanEntry, Key, key_of, local_identifier,
}
use dispatcher_for_codex_age.Batch.Attempts.{entry_key}
use dispatcher_for_codex_age.Batch.Attempts.Entries.{fits}
use dispatcher_for_codex_age.Batch.Retry.{
  RetryRequest, RetryRequestEntry, check_entry, check_entries, check_request, request_key,
}
use dispatcher_for_codex_age.Batch.Retry.Entry.{new_key, AllNew}

abbrev short : Key → Key
short (p ∷ s ∷ rest) = p ∷ s ∷ []
short _ = []

count-new_key-le :
    (k : Key) (es : List RetryRequestEntry)
    → count k (map new_key es) ≤ count (short k) (map request_key es)
count-new_key-le k [] = omega arith
count-new_key-le k (e ∷ es) = ground (
  arith,
  ==_iff k (new_key e),
  ==_iff (short k) (request_key e),
  ap short {x = k} {y = new_key e},
  count-new_key-le k es,
)

-- The entries of a request, as `RetryRequest` leaves them: the same keys, no shard twice.
pub record IsRequest (es checked : List RetryRequestEntry) : Type 0 where
  pub same_keys : map new_key checked ≡ map new_key es
  pub once : (k : Key) → count k (map new_key checked) ≤ 1

check_entry-same :
    (strip : String → String) (e c : RetryRequestEntry)
    → check_entry strip e ≡ ok c
    → new_key c ≡ new_key e
unfolding check_entry
check_entry-same strip e c h = ground arith

check_entries-same :
    (strip : String → String) (es : List RetryRequestEntry)
    → OnOk (λ c. map new_key c ≡ map new_key es) (check_entries strip es)
unfolding check_entries
check_entries-same strip [] = refl
check_entries-same strip (e ∷ es) =
    let rest = check_entries-same strip es in
    let S : List RetryRequestEntry → Type 0 = λ c. map new_key c ≡ map new_key (e ∷ es) in
    OnOk->>= S (check_entry strip e) _ λ c p. OnOk->>= S (check_entries strip es) _ λ cs q.
      cc (check_entry-same strip e c p, of_ok (λ d. map new_key d ≡ map new_key es) _ cs rest q)

check_request-parts :
    (strip : String → String) (r c : RetryRequest)
    → check_request strip r ≡ ok c
    → (check_entries strip r.entries ≡ ok c.entries)
      × (is_unique (map request_key c.entries) ≡ true)
unfolding check_request
check_request-parts strip r c h = (ground arith, ground arith)

pub check_request-id :
    (strip : String → String) (r c : RetryRequest)
    → check_request strip r ≡ ok c
    → c.retry_plan_id ≡ r.retry_plan_id
unfolding check_request local_identifier
check_request-id strip r c h = ground arith

pub check_request-IsRequest :
    (strip : String → String) (r c : RetryRequest)
    → check_request strip r ≡ ok c
    → IsRequest r.entries c.entries
check_request-IsRequest strip r c h =
    let parts = check_request-parts strip r c h in
    record {
      same_keys =
          of_ok (λ d. map new_key d ≡ map new_key r.entries) _ c.entries
            (check_entries-same strip r.entries) parts.0;
      once = λ k. omega (
        arith,
        count-new_key-le k c.entries,
        count_unique (short k) (map request_key c.entries) parts.1,
      );
    }

pub AllNew-keys :
    (plan : LoadedPlan) (specs : List AttemptSpec) (es : List RetryRequestEntry)
    (entries : List RetryPlanEntry)
    → AllNew plan specs es entries
    → (map entry_key entries ≡ map new_key es)
      × (all (fits plan) entries ≡ true)
      × ((k : Key) → contains k (map key_of specs) ≡ true → count k (map entry_key entries) ≡ 0)
AllNew-keys plan specs [] [] h = (refl, refl, λ k c. refl)
AllNew-keys plan specs [] (x ∷ xs) h = absurd h
AllNew-keys plan specs (e ∷ es) [] h = absurd h
AllNew-keys plan specs (e ∷ es) (x ∷ xs) h =
    let rest = AllNew-keys plan specs es xs h.1 in
    (
      cc (h.0.same_key, rest.0),
      ground (arith, h.0.fitting, rest.1),
      λ k c. ground (
        arith,
        rest.2 k c,
        h.0.unused,
        ==_iff k (entry_key x),
        ap (λ j. contains j (map key_of specs)) {x = k} {y = entry_key x},
      ),
    )
