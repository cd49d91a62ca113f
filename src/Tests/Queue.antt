-- ===== src/Tests/Queue.antt =====
-- Proposals in a bucket that is a function from all_keys to texts.
use mathlib.Core.List.{Perm, filter_map}
use vejas.Base.{
  ℕ, String, ◌≡◌, ◌≢◌, refl, ap, Option, none, some, List, [], ◌∷◌, str_eq, if◌then◌else◌,
}
use vejas.Exec.{Result, ok}
use vejas.Vjs.Value.{Json, Map, null, number, string, object, no_entries, entry, get, get_field}
use vejas.Versions.{Bucket}
use vejas.Versions.GitWins.{BucketLaws}
use vejas.Proposals.{
  new_id, decimal, proposal_record, decided, submit, get_proposal, set_status, list, created_at,
  sort_newest, insert_newest, collected,
}
use vejas.Proposals.Decision.{get_proposal-submit, get_proposal-set_status}
use vejas.Proposals.Newest.{IsNewestFirst, list-IsNewestFirst}
use vejas.Tests.Toy.{toy}
use vejas.Tests.Overlay.{found}

abbrev pub bucket : (String → Option (Json toy)) → Bucket toy (String → Option String)
bucket read = record {
  get = λ k s. ok (s k);
  put = λ k v s. (ok 1, λ j. if str_eq k j then some v else s j);
  delete = λ k s. (ok tt, λ j. if str_eq k j then none else s j);
  from_slice = read;
}

pub bucket-BucketLaws : (read : String → Option (Json toy)) → BucketLaws (bucket read)
bucket-BucketLaws read = record {
  get-put = λ k v n s e. ap (λ o. ok o) (found k (some v) (s k));
  get-delete = λ k s e. ap (λ o. ok o) (found k none (s k));
}

abbrev empty : String → Option String
empty k = none

abbrev pub pending : Map toy
pending = proposal_record toy "p-1-1" "promote" null "agent" "af63" null 1

abbrev submitted : String → Option (Json toy)
submitted text = some (object pending)

abbrev by_bob : Json toy
by_bob = decided toy "approved" (some "bob") 2 (object pending)

abbrev queue : Bucket toy (String → Option String)
queue = bucket submitted

abbrev queued : String → Option String
queued = (submit queue "p-1-1" "promote" null "agent" "af63" null 1 empty).1

get_proposal-submit_example :
    (get_proposal queue "p-1-1" queued ≡ some (object pending))
    × (get_field "status" (object pending) ≡ some (string "pending"))
    × (get_field "baseline" (object pending) ≡ some (string "af63"))
    × (get_field "payload" (object pending) ≡ some null)
get_proposal-submit_example =
    get_proposal-submit queue (bucket-BucketLaws submitted) "p-1-1" "promote" null "agent" "af63"
      null 1 empty (object pending) refl (unfold submit in refl)

-- A bucket's text "old" is the pending proposal, and any other the decided one.
abbrev either : String → Option (Json toy)
either text = if str_eq text "old" then some (object pending) else some by_bob

abbrev pub old : String → Option String
old k = some "old"

get_proposal-set_status_example :
    (get_proposal
        (bucket either)
        "p-1-1"
        (set_status (bucket either) "p-1-1" "approved" (some "bob") 2 old).1
      ≡ some by_bob)
    × (get_field "status" by_bob ≡ some (string "approved"))
    × ((k : String)
        → "status" ≢ k
        → "decided_at" ≢ k
        → "decided_by" ≢ k
        → get_field k by_bob ≡ get k pending)
get_proposal-set_status_example =
    get_proposal-set_status (bucket either) (bucket-BucketLaws either) "p-1-1" "approved"
      (some "bob") 2 old pending by_bob (unfold get_proposal in refl) refl
      (unfold set_status get_proposal in refl)

-- Three proposals, of the seconds 1, 5 and 3, with their key as their text.
abbrev of_second : ℕ → Json toy
of_second n = object (entry "created_at" (number n) no_entries)

abbrev by_key : String → Option (Json toy)
by_key k =
    if str_eq k "b"
    then some (of_second 5)
    else if str_eq k "c"
    then some (of_second 3)
    else some (of_second 1)

abbrev each : String → Option String
each k = some k

abbrev all_keys : (String → Option String) → Result String (List String)
all_keys s = ok ("a" ∷ "b" ∷ "c" ∷ [])

listed :
    list (bucket by_key) (λ n. some n) all_keys each ≡ of_second 5 ∷ of_second 3 ∷ of_second 1 ∷ []
unfolding list sort_newest insert_newest collected created_at get_proposal get_field get
listed = refl

list-IsNewestFirst_example :
    IsNewestFirst (λ n. some n) (list (bucket by_key) (λ n. some n) all_keys each)
    × Perm
        (list (bucket by_key) (λ n. some n) all_keys each)
        (filter_map (λ k. get_proposal (bucket by_key) k each) ("a" ∷ "b" ∷ "c" ∷ []))
list-IsNewestFirst_example = list-IsNewestFirst (bucket by_key) (λ n. some n) all_keys each

first_id : new_id 1700000000 9 ≡ ("p-1700000000-9", 10)
unfolding new_id decimal
first_id = refl
