-- ===== src/Tests/Wire.antt =====
-- A connection that reads all that it is handed, and a flow's round on it.
use mathlib.Core.List.{Memᴰ}
use mathlib.Core.List.Memᴰ
use vejas.Base.{
  ℕ, String, ◌≡◌, refl, sym, subst, append-nil, true, none, some, List, [], ◌∷◌, ◌++◌, All, take,
  arith,
}
use vejas.Exec.{ok}
use vejas.Vjs.Text.{contains_text}
use vejas.Bus.Pull.{Arrival, Round, collect, next_message, next_from, classify, status_of}
use vejas.Bus.Rounds.{before_end, collect-before_end}
use vejas.Bus.{
  send_all, barrier, barrier_since, without, Publish, NatsClient, Link, answered, be_bytes, confirm,
}
use vejas.Bus.Laws.{History, Later, Later-refl, ClientLaws}
use vejas.Bus.Confirm.{confirm-Read}

-- What the connection was handed, and what streams have stored.
pub record Net : Type 0 where
  pub handed : List Publish
  pub kept : List Publish

abbrev pub net : NatsClient Net
net = record {
  connected = λ s. true;
  connects = λ s. 1;
  max_payload = λ s. 100;
  publish = λ p s. (ok tt, record s { handed = s.handed ++ (p ∷ []) });
  publish_with_reply = λ subject inbox s. (ok tt, s);
  wait_echo = λ id s. (answered, s);
  stream_publish = λ p s. (ok 1, record s { kept = s.kept ++ (p ∷ []) });
  add_stream = λ name s. s;
}

abbrev pub past : History Net
past = record {
  Read = λ p s. Memᴰ p s.handed;
  Sent = λ e p s. Memᴰ p s.handed;
  Stored = λ p s. Memᴰ p s.kept;
  calls = λ s. s.handed;
}

grown :
    (s t : Net) (ps qs : List Publish)
    → t.handed ≡ s.handed ++ ps
    → t.kept ≡ s.kept ++ qs
    → Later net past s t
grown s t ps qs h k =
    let more =
      λ (p : Publish) (i : Memᴰ p s.handed). subst (Memᴰ p) (sym h) (Memᴰ.append_left ps i) in
    record {
      read = more;
      sent = λ e p i. more p i;
      stored = λ p i. subst (Memᴰ p) (sym k) (Memᴰ.append_left qs i);
      connections = omega arith;
    }

pub net-ClientLaws : ClientLaws net past
net-ClientLaws = record {
  publish-Later = λ p s. grown s _ (p ∷ []) [] refl (sym (append-nil s.kept));
  publish-calls = λ p s. refl;
  publish-Sent = λ p s o e. Memᴰ.append_right s.handed (Memᴰ.head refl);
  echo-Read = λ echo id e p s sent o heard same. Memᴰ.append_left ((echo, be_bytes 8 id) ∷ []) sent;
  wait-Later = λ id s. Later-refl net past s;
  wait-calls = λ id s. refl;
  reply-Later = λ subject inbox s. Later-refl net past s;
  reply-calls = λ subject inbox s. refl;
  stream-Later = λ p s. grown s _ [] (p ∷ []) (sym (append-nil s.handed)) refl;
  stream-calls = λ p s. refl;
  stream-Stored = λ p n s o. Memᴰ.append_right s.kept (Memᴰ.head refl);
  add-Later = λ name s. Later-refl net past s;
  add-calls = λ name s. refl;
}

abbrev pub quiet : Link Net
quiet = record { conn = record { handed = []; kept = [] }; next_id = 7; waiting = [] }

abbrev batch : List Publish
batch = ("vx.a", 1 ∷ []) ∷ ("vx.b", 2 ∷ []) ∷ []

confirms : (confirm net "_INBOX.1" batch quiet).0 ≡ ok tt
unfolding confirm send_all barrier_since barrier be_bytes without
confirms = refl

confirm-Read_example : All (λ p. Memᴰ p (confirm net "_INBOX.1" batch quiet).1.1.conn.handed) batch
confirm-Read_example = confirm-Read net "_INBOX.1" past net-ClientLaws batch quiet confirms

abbrev plain : ℕ → Arrival
plain n = record {
  message = record { subject = "vx.a"; payload = n ∷ []; reply = none };
  status = none;
  description = none;
}

abbrev with_status : ℕ → String → Arrival
with_status code text = record (plain 0) { status = some code; description = some text }

-- An empty request's status, a message, and the end of the consumer.
abbrev arrivals : List Arrival
arrivals =
    plain 1
    ∷ with_status 404 "No Messages"
    ∷ plain 2
    ∷ with_status 409 "Consumer Deleted"
    ∷ plain 3
    ∷ []

abbrev asked_round : Round
asked_round = record { taken = 0; fault = none; arrivals = arrivals }

arrivals-collect : collect 65 asked_round ≡ (
  (plain 1).message ∷ (plain 2).message ∷ [],
  record { taken = 2; fault = some (409, "Consumer Deleted"); arrivals = plain 3 ∷ [] },
)
unfolding collect next_message next_from classify status_of contains_text
arrivals-collect = refl

collect-before_end_example : (collect 65 asked_round).0 ≡ take 64 (before_end arrivals)
collect-before_end_example = collect-before_end none arrivals
