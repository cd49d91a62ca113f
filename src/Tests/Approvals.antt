-- ===== src/Tests/Approvals.antt =====
-- Deciding a proposal that is pending, on a disk with one flow.
use vejas.Base.{
  String, ◌≡◌, refl, true, false, Option, none, some, List, [], ◌∷◌, str_eq, if◌then◌else◌,
}
use vejas.Exec.{ok, ◌>>=◌, pure, raise, gets, modify}
use vejas.Vjs.Value.{Json, object, as_str, get, get_field}
use vejas.Versions.{Bucket, text_field}
use vejas.Proposals.{decided, proposal_record, get_proposal, set_status}
use vejas.Governance.State.{Paths, Files, Around, Site}
use vejas.Governance.{decide_proposal, decide_found, reject, record_status, is_pending}
use vejas.Governance.Decided.{MayTouch, decide_proposal-MayTouch}
use vejas.Governance.Final.{Refuses, decides, decide_proposal-final}
use vejas.Vjs.Token.{Bytes}
use vejas.Governance.Doors.{
  Header, other_method, write_refused, credential, is_read_method, is_human_route,
  bearer_authorized, approval_authorized, ct_eq, ct_loop, strip_bytes,
}
use vejas.Governance.State.{ends_with}
use vejas.Governance.Doors.Gate.{MayWrite, write_refused-MayWrite}
use vejas.Tests.Toy.{toy, insert_entry}
use vejas.Tests.Queue.{bucket, bucket-BucketLaws, pending, old}

abbrev by_ann : Json toy
by_ann = decided toy "rejected" (some "ann") 9 (object pending)

-- A bucket's text "old" is the pending proposal, and any other the one that was decided.
abbrev reads : String → Option (Json toy)
reads text = if str_eq text "old" then some (object pending) else some by_ann

abbrev store : Bucket toy (String → Option String)
store = bucket reads

abbrev disk : Files String
disk = record { read_to_string = λ path text. ok text; write = λ path text before. (ok tt, text) }

abbrev paths : Paths
paths = record {
  strip_prefix = λ path. none;
  join = λ path. path;
  resolves_within = λ path. true;
  file_stem = λ path. path;
}

abbrev around : Around
around = record {
  connect = ok tt;
  queue_opens = true;
  versions_open = true;
  clustered = false;
  read_at = 7;
  put_at = 8;
  decided_at = 9;
}

abbrev site : Site toy (String → Option String) String
site = record {
  disk = "FEE = 5";
  queue = old;
  overlays = record { kv = λ k. none; evictions = [] };
  audits = [];
  events = [];
  reloads = 0;
}

decide_proposal-MayTouch_example :
    MayTouch toy store disk paths
      (λ text. none)
      around
      "p-1-1"
      true
      site
      (decide_proposal toy store disk paths (λ text. none) around "p-1-1" true "ann" site)
decide_proposal-MayTouch_example =
    decide_proposal-MayTouch toy store disk paths (λ text. none) around "p-1-1" true "ann" site

site-rejected :
    (decides toy store
      (bucket-BucketLaws reads)
      disk
      paths
      (λ text. none)
      around
      "p-1-1"
      false
      "ann"
      site).0
    ≡ ok (by_ann, none)
unfolding decide_proposal decide_found reject record_status is_pending set_status get_proposal
    text_field get_field get as_str proposal_record decided insert_entry ◌>>=◌ pure raise gets
    modify
site-rejected = refl

decide_proposal-final_example :
    Refuses toy store
      (bucket-BucketLaws reads)
      disk
      paths
      (λ text. none)
      around
      (decides toy store
        (bucket-BucketLaws reads)
        disk
        paths
        (λ text. none)
        around
        "p-1-1"
        false
        "ann"
        site).1
      (decides toy store
        (bucket-BucketLaws reads)
        disk
        paths
        (λ text. none)
        around
        "p-1-1"
        true
        "bob"
        (decides toy store
          (bucket-BucketLaws reads)
          disk
          paths
          (λ text. none)
          around
          "p-1-1"
          false
          "ann"
          site).1)
decide_proposal-final_example =
    decide_proposal-final toy store (bucket-BucketLaws reads) disk paths (λ text. none) around
      around "p-1-1" false true "ann" "bob" site (by_ann, none) refl site-rejected

-- A person approves with the approval credential and without that of the agent.
abbrev headers : List Header
headers = ("x-approval-token", 1 ∷ 2 ∷ []) ∷ []

abbrev agents : Option Bytes
agents = some (7 ∷ 7 ∷ [])

abbrev persons : Option Bytes
persons = some (1 ∷ 2 ∷ [])

lets_approve :
    write_refused str_eq agents persons other_method "/proposals/p-1-1/approve" headers ≡ false
unfolding write_refused credential is_read_method is_human_route bearer_authorized
    approval_authorized ct_eq ct_loop strip_bytes ends_with
lets_approve = refl

refuses_edit : write_refused str_eq agents persons other_method "/reload" headers ≡ true
unfolding write_refused credential is_read_method is_human_route bearer_authorized
    approval_authorized ct_eq ct_loop strip_bytes ends_with
refuses_edit = refl

write_refused-MayWrite_example :
    MayWrite str_eq agents persons other_method "/proposals/p-1-1/approve" headers
write_refused-MayWrite_example =
    write_refused-MayWrite str_eq agents persons other_method "/proposals/p-1-1/approve" headers
      lets_approve
