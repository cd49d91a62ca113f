-- ===== src/Flow/Settled.antt =====
-- What a flow's round asks of the connection (core/src/main.rs, `supervise_vjs`): no message is acked
-- before what it stands for is safe.
use mathlib.Core.List.{Memᴰ}
use vejas.Base.{
  ℕ, String, ◌≡◌, refl, sym, ap, subst, Bool, true, false, Option, none, some, List, [], ◌∷◌, ◌⊎◌,
  map, All, All-map, length, if_cases,
}
use vejas.Exec.{Result, ok, err}
use vejas.Vjs.Value.{Platform, Json}
use vejas.Vjs.Ast.{Program}
use vejas.Vjs.Engine.{Sources, invalidate}
use vejas.Metrics.{Seconds, fetched}
use vejas.Bus.{Publish, NatsClient, Link, Message, up, confirm}
use vejas.Bus.Laws.{
  Anything, History, Later, Later-refl, Later-trans, ClientLaws, Steps, Steps-refl, Steps-trans,
  reply-Steps,
}
use vejas.Bus.Confirm.{confirm-Steps, confirm-Read}
use vejas.Bus.Pull.{Fault, Round, requested, request_if, round}
use vejas.Dlq.{Post}
use vejas.Flow.State.{FlowError, Codec, Turn, Flow, Turned}
use vejas.Flow.{at_unit, on_messages, acked, settle_round, worked, pulled_round, flow_round}
use vejas.Flow.Keeps.{Ackable, ack_all-Steps}
use vejas.Flow.Asked.{Among, ReadAt, delivered, kept, Allowed, emitted, echoed, rejected, settled}
use vejas.Flow.Turns.{turns-Through}
use vejas.Flow.Messages.{Delivered, Kept, Sound, Allows}

module _ (P : Platform) (Q : Seconds) {S : Type 0} (client : NatsClient S) (echo : String)
    (codec : Codec (Json P)) (post : Post (FlowError P.Number)) (sources : Sources P.Number)
    (prog : Program P.Number) (history : History S) (laws : ClientLaws client history)
    (name version : String) where
  each_of : {A : Type 0} (F : A → Type 0) (xs : List A) → ((x : A) → Memᴰ x xs → F x) → All F xs
  each_of F [] f = tt
  each_of F (x ∷ xs) f = (f x (Memᴰ.head refl), each_of F xs λ y i. f y (Memᴰ.tail i))

  in_map :
      (ts : List (Turn Q.Time)) (t : Turn Q.Time)
      → Memᴰ t ts
      → Memᴰ t.message (map (λ u. u.message) ts)
  in_map [] t i = elim i [ ]
  in_map (u ∷ ts) t (Memᴰ.head e) = Memᴰ.head (ap (λ v. v.message) e)
  in_map (u ∷ ts) t (Memᴰ.tail i) = Memᴰ.tail (in_map ts t i)

  abbrev acked' : Result String (Unit {0}) × (List Publish × Link S) → Flow P Q S → Flow P Q S
  acked' = acked P Q client echo codec post sources prog name version

  abbrev through_barrier : ℕ → Q.Time × Q.Time × Q.Time → Flow P Q S → Flow P Q S
  through_barrier = settle_round P Q client echo codec post sources prog name version

  abbrev conn : Flow P Q S → S
  conn w = w.desk.link.conn

  acked-Steps :
      (K : Publish → Type 0) (w : Flow P Q S)
      (c : Result String (Unit {0}) × (List Publish × Link S))
      → Steps client history K (conn w) c.1.1.conn
      → (c.0 ≡ ok tt
          → Later client history c.1.1.conn (conn (acked' c w))
          → All (Ackable K) w.to_ack)
      → Steps client history K (conn w) (conn (acked' c w))
  acked-Steps K w (err e, (held, l)) steps h = steps
  acked-Steps K w (ok u, (held, l)) steps h =
      let none_held : All (Ackable Anything) w.to_ack = each_of _ w.to_ack λ m i r e. tt in
      let later = (ack_all-Steps client history laws Anything w.to_ack l none_held).later in
      Steps-trans client history K (conn w) l.conn _ steps
        (ack_all-Steps client history laws K w.to_ack l (h refl later))

  -- The pull that leaves ahead of a round publishes nothing else.
  round-Steps :
      (K : Publish → Type 0) (next inbox : String) (fault : Option Fault) (l : Link S)
      → Steps client history K l.conn (round client next inbox fault [] l).1.conn
  unfolding round
  round-Steps K next inbox (some f) l = Steps-refl client history K l.conn
  round-Steps K next inbox none l =
      request (up client inbox l) (client.publish_with_reply next inbox l.conn)
        (reply-Steps client history K laws next inbox l.conn)
    where
      answer :
          (r : Result String (Unit {0}) × S)
          → Steps client history K l.conn r.1
          → Steps client history K l.conn (requested client next inbox [] l r).1.conn
      answer (ok u, s) h = h
      answer (err e, s) h = h

      request :
          (b : Bool) (r : Result String (Unit {0}) × S)
          → Steps client history K l.conn (client.publish_with_reply next inbox l.conn).1
          → Steps client history K l.conn (request_if client next inbox b [] l).1.conn
      request true r h = answer (client.publish_with_reply next inbox l.conn) h
      request false r h = Steps-refl client history K l.conn

  module _ (ts : List (Turn Q.Time)) (end : S) where
    abbrev K : Publish → Type 0
    K = Allowed P Q client echo codec post sources prog history ts end

    abbrev Mine : Message → Type 0
    Mine = Among P Q client echo codec post sources prog history ts

    abbrev R : Publish → Type 0
    R = ReadAt P Q client echo codec post sources prog history end

    abbrev SoundEnd : Flow P Q S → Type 0
    SoundEnd w = Sound P Q client echo codec post sources prog history laws R K Mine w.held w.to_ack

    acks-Kept :
        (m : Message)
        → Mine m
        → (s : S) → Kept P Q client echo codec post sources prog history m s
        → Later client history s end
        → Ackable K m
    acks-Kept m mine s k later = λ r e. settled m mine r e refl (
        kept (record {
          letter = k.letter;
          subject = k.subject;
          payload = k.payload;
          lettered = record {
            body = k.lettered.body;
            text = k.lettered.text;
            there = later.stored _ k.lettered.there;
          };
        }))

    may :
        (t : Turn Q.Time)
        → Mine t.message
        → Allows P Q client echo codec post sources prog history laws R K Mine t.message
    may t mine = record {
      mine = mine;
      emits = λ ran. each_of _ ran.ctx.emits λ e i. emitted t.message mine ran e i refl;
      naks = λ r e. rejected t.message mine r e refl;
    }

    -- A confirmed batch is read, so that the messages behind it are settled.
    acks_all :
        (held : List Publish) (ms : List Message)
        → All R held
        → All
            (λ m.
              Mine m × (All R held → Delivered P Q client echo codec post sources prog history R m))
            ms
        → All (Ackable K) ms
    acks_all held [] read h = tt
    acks_all held (m ∷ ms) read h =
        (λ r e. settled m h.0.0 r e refl (delivered (h.0.1 read)), acks_all held ms read h.1)

    settle-Steps :
        (n : ℕ) (secs : Q.Time × Q.Time × Q.Time) (w : Flow P Q S)
        → SoundEnd w
        → Later client history (conn (through_barrier n secs w)) end
        → Steps client history K (conn w) (conn (through_barrier n secs w))
    unfolding settle_round
    settle-Steps n secs w sound later =
        let u = at_unit P Q client echo name (fetched n) w in
        let c = confirm client echo w.held w.desk.link in
        acked-Steps K u c
          (confirm-Steps client echo history laws K (λ id. echoed id refl) w.held w.desk.link
            sound.asks)
          (λ o more.
            let all = Later-trans client history c.1.1.conn (conn (acked' c u)) end more later in
            acks_all w.held w.to_ack
              (All-map w.held all.read (confirm-Read client echo history laws w.held w.desk.link o))
              sound.acks)

    settle-Later :
        (n : ℕ) (secs : Q.Time × Q.Time × Q.Time) (w : Flow P Q S)
        → Later client history (conn w) (conn (through_barrier n secs w))
    unfolding settle_round
    settle-Later n secs w =
        let u = at_unit P Q client echo name (fetched n) w in
        (acked-Steps Anything u (confirm client echo w.held w.desk.link)
          (confirm-Steps client echo history laws Anything (λ id. tt) w.held w.desk.link
            (each_of _ w.held λ p i. tt))
          (λ o more. each_of _ w.to_ack λ m i r e. tt)).later

    worked-Steps :
        (n : ℕ) (secs : Q.Time × Q.Time × Q.Time) (w : Flow P Q S) (x : Bool × Flow P Q S)
        → (((m : Message)
              → Mine m
              → (s : S) → Kept P Q client echo codec post sources prog history m s
              → Later client history s (conn x.1)
              → Ackable K m)
            → Steps client history K (conn w) (conn x.1) × SoundEnd x.1)
        → Later client history
            (conn (worked P Q client echo codec post sources prog name version n secs x).1)
            end
        → Steps client history K
            (conn w)
            (conn (worked P Q client echo codec post sources prog name version n secs x).1)
    worked-Steps n secs w (false, x) through later =
        (through
          λ m mine s k l. acks-Kept m mine s k (Later-trans client history s _ end l later)).0
    worked-Steps n secs w (true, x) through later =
        let rest = Later-trans client history (conn x) _ end (settle-Later n secs x) later in
        let (steps, sound) =
          through
            λ m mine s k l. acks-Kept m mine s k (Later-trans client history s _ end l rest) in
        Steps-trans client history K (conn w) (conn x) _ steps (settle-Steps n secs x sound later)

    pulled-Steps :
        (secs : Q.Time × Q.Time × Q.Time) (w : Flow P Q S)
        (r : Result (String ⊎ Fault) Round × Link S)
        → SoundEnd w
        → Steps client history K (conn w) r.1.conn
        → Later client history
            (conn (pulled_round P Q client echo codec post sources prog name version ts secs w r).1)
            end
        → Steps client history K
            (conn w)
            (conn (pulled_round P Q client echo codec post sources prog name version ts secs w r).1)
    pulled-Steps secs w (err e, l) sound h later = h
    pulled-Steps secs w (ok q, l) sound h later =
        let v : Flow P Q S = record w { desk = record w.desk { link = l } } in
        let mine = each_mine in
        Steps-trans client history K (conn w) (conn v) _ h (
          worked-Steps (length ts) secs v
            (on_messages P Q client echo codec post sources prog name version ts v)
            (turns-Through P Q client echo codec post sources prog history laws name version R Mine
              K ts v mine (All-map ts may mine) sound)
            later)
      where
        each_mine : All (λ t. Mine t.message) ts
        each_mine = each_of _ ts λ t i. in_map ts t i

  -- From a state to the end of a round, what is asked is allowed at that end.
  abbrev pub AsksAllowed : List (Turn Q.Time) → Flow P Q S → Turned × Flow P Q S → Type 0
  AsksAllowed ts w x =
      Steps client history
        (Allowed P Q client echo codec post sources prog history ts x.1.desk.link.conn)
        w.desk.link.conn x.1.desk.link.conn

  -- The core publishes that a round asks of the connection, whatever ends it: emits of runs of its messages, the
  -- echo of a barrier, naks of its messages, and an ack only of a message of which, at the end, the
  -- server has read every emit of a run, or a letter with its payload is stored. The round before
  -- has left no batch.
  pub flow_round-Allowed :
      (next inbox : String) (fault : Option Fault) (running : Bool) (ts : List (Turn Q.Time))
      (secs : Q.Time × Q.Time × Q.Time) (w : Flow P Q S)
      → w.held ≡ []
      → AsksAllowed ts w (
          flow_round P Q client echo codec post sources prog name version next inbox fault running
            ts secs w)
  unfolding flow_round
  flow_round-Allowed next inbox fault running ts secs w none_held =
      let v : Flow P Q S = record w { engine = invalidate w.engine; to_ack = [] } in
      let r = round client next inbox fault [] w.desk.link in
      let end =
        conn (pulled_round P Q client echo codec post sources prog name version ts secs v r).1 in
      let asks = Allowed P Q client echo codec post sources prog history ts end in
      if_cases (AsksAllowed ts w) running
        (λ h.
          pulled-Steps ts end secs v r
            (record { asks = subst (All asks) (sym none_held) tt; acks = tt })
            (round-Steps asks next inbox fault w.desk.link) (Later-refl client history end))
        (λ h. Steps-refl client history _ (conn w))
