-- ===== src/Bus/Confirm.antt =====
-- The publish-before-ack barrier (core/src/bus.rs, `Batch::confirm`).
use vejas.Base.{
  All-map, ℕ, ◌≤◌, String, ◌≡◌, refl, sym, ◌∙◌, subst, Bool, true, false, List, [], ◌∷◌, All,
  if◌then◌else◌, if_cases, ◌==◌, arith,
}
use vejas.Exec.{Result, ok, err}
use vejas.Bus.{
  Publish, NatsClient, Link, Heard, answered, dropped, timed_out, be_bytes, up, epoch, heard_by,
  asked, entered, barrier, since, barrier_since, then_send, send_all, then_barrier, confirm_up,
  confirm,
}
use vejas.Bus.Laws.{
  Anything, History, Later, ClientLaws, Steps, Steps-refl, Steps-trans, publish-Steps, wait-Steps,
}

module _ {S : Type 0} (client : NatsClient S) (echo : String) (history : History S)
    (laws : ClientLaws client history) where
  abbrev AllRead : List Publish → S → Type 0
  AllRead ps s = All (λ p. history.Read p s) ps

  abbrev AllSent : ℕ → List Publish → S → Type 0
  AllSent e ps s = All (λ p. history.Sent e p s) ps

  -- Where all is sent and the connection is still that one, all was handed to it.
  Sends : ℕ → List Publish → Result String (Unit {0}) × Link S → Type 0
  Sends e ps (ok u, l) = client.connects l.conn ≡ e → AllSent e ps l.conn
  Sends e ps (err f, l) = Unit

  module _ (K : Publish → Type 0) where
    abbrev Steps' : Link S → Result String (Unit {0}) × Link S → Type 0
    Steps' l r = Steps client history K l.conn r.1.conn

    then_send-Steps :
        (rest : Link S → Result String (Unit {0}) × Link S) (l : Link S)
        (r : Result String (Unit {0}) × S)
        → Steps client history K l.conn r.1
        → ((k : Link S) → Steps' k (rest k))
        → Steps' l (then_send client echo rest l r)
    then_send-Steps rest l (ok u, s) h k =
        let l' : Link S = record l { conn = s } in
        Steps-trans client history K l.conn s (rest l').1.conn h (k l')
    then_send-Steps rest l (err e, s) h k = h

    send_all-Steps :
        (ps : List Publish) (l : Link S) → All K ps → Steps' l (send_all client echo ps l)
    unfolding send_all
    send_all-Steps [] l ks = Steps-refl client history K l.conn
    send_all-Steps (p ∷ ps) l ks =
        then_send-Steps (send_all client echo ps) l _
          (publish-Steps client history K laws p l.conn ks.0) λ k. send_all-Steps ps k ks.1

    heard_by-Steps :
        (id : ℕ) (l k : Link S) (r : Heard × S)
        → Steps client history K l.conn r.1
        → Steps' l (heard_by client echo id k r)
    heard_by-Steps id l k (answered, s) h = h
    heard_by-Steps id l k (dropped, s) h = h
    heard_by-Steps id l k (timed_out, s) h = h

    asked-Steps :
        (id : ℕ) (l k : Link S) (r : Result String (Unit {0}) × S)
        → Steps client history K l.conn r.1
        → Steps' l (asked client echo id k r)
    asked-Steps id l k (ok u, s) h =
        heard_by-Steps id l k (client.wait_echo id s)
          (Steps-trans client history K l.conn s _ h (wait-Steps client history K laws id s))
    asked-Steps id l k (err e, s) h = h

    barrier-Steps : (l : Link S) → K (echo, be_bytes 8 l.next_id) → Steps' l (barrier client echo l)
    unfolding barrier
    barrier-Steps l k =
        asked-Steps l.next_id l (entered client echo l) _
          (publish-Steps client history K laws (echo, be_bytes 8 l.next_id) l.conn k)

    since-Steps :
        (e : ℕ) (l : Link S) (r : Result String (Unit {0}) × Link S)
        → Steps' l r
        → Steps' l (since client echo e r)
    since-Steps e l (ok u, l') h = if_cases (Steps' l) (epoch client echo l' == e) (λ t. h) (λ f. h)
    since-Steps e l (err f, l') h = h

    module _ (echoes : (id : ℕ) → K (echo, be_bytes 8 id)) where
      then_barrier-Steps :
          (e : ℕ) (l : Link S) (r : Result String (Unit {0}) × Link S)
          → Steps' l r
          → Steps' l (then_barrier client echo e r)
      unfolding barrier_since
      then_barrier-Steps e l (ok u, l') h =
          since-Steps e l (barrier client echo l')
            (Steps-trans client history K l.conn l'.conn _ h (barrier-Steps l' (echoes l'.next_id)))
      then_barrier-Steps e l (err f, l') h = h

      confirm_up-Steps :
          (b : Bool) (ps : List Publish) (l : Link S)
          → All K ps
          → Steps' l (confirm_up client echo b ps l)
      confirm_up-Steps true ps l ks =
          then_barrier-Steps (epoch client echo l) l (send_all client echo ps l)
            (send_all-Steps ps l ks)
      confirm_up-Steps false ps l ks = Steps-refl client history K l.conn

      pub confirm-Steps :
          (ps : List Publish) (l : Link S)
          → All K ps
          → Steps client history K l.conn (confirm client echo ps l).1.1.conn
      unfolding confirm
      confirm-Steps [] l ks = Steps-refl client history K l.conn
      confirm-Steps (p ∷ ps) l ks = confirm_up-Steps (up client echo l) (p ∷ ps) l ks

  cons_Sends :
      (e : ℕ) (p : Publish) (ps : List Publish) (r : Result String (Unit {0}) × Link S)
      → (client.connects r.1.conn ≡ e → history.Sent e p r.1.conn)
      → Sends e ps r
      → Sends e (p ∷ ps) r
  unfolding Sends
  cons_Sends e p ps (ok u, l) h k = λ same. (h same, k same)
  cons_Sends e p ps (err f, l) h k = tt

  any : (ps : List Publish) → All Anything ps
  any [] = tt
  any (p ∷ ps) = (tt, any ps)

  then_send-Sends :
      (e : ℕ) (p : Publish) (ps : List Publish) (l : Link S) (r : Result String (Unit {0}) × S)
      → e ≤ client.connects l.conn
      → Later client history l.conn r.1
      → (r.0 ≡ ok tt
          → client.connects r.1 ≡ client.connects l.conn
          → history.Sent (client.connects l.conn) p r.1)
      → ((k : Link S) → e ≤ client.connects k.conn → Sends e ps (send_all client echo ps k))
      → Sends e (p ∷ ps) (then_send client echo (send_all client echo ps) l r)
  unfolding Sends
  then_send-Sends e p ps l (err f, s) le h sent rest = tt
  then_send-Sends e p ps l (ok u, s) le h sent rest =
      let k : Link S = record l { conn = s } in
      let after = send_all-Steps Anything ps k (any ps) in
      cons_Sends e p ps (send_all client echo ps k)
        (λ same.
          let there : client.connects s ≡ e =
            omega (arith, same, le, h.connections, after.later.connections) in
          let here : client.connects l.conn ≡ e = omega (arith, there, le, h.connections) in
          after.later.sent e p
            (subst (λ n. history.Sent n p s) here (sent refl (there ∙ sym here))))
        (rest k (omega (arith, le, h.connections)))

  send_all-Sends :
      (e : ℕ) (ps : List Publish) (l : Link S)
      → e ≤ client.connects l.conn
      → Sends e ps (send_all client echo ps l)
  unfolding send_all Sends
  send_all-Sends e [] l le = λ same. tt
  send_all-Sends e (p ∷ ps) l le =
      then_send-Sends e p ps l (client.publish p l.conn) le (laws.publish-Later p l.conn)
        (laws.publish-Sent p l.conn) λ k le'. send_all-Sends e ps k le'

  module _ (e id : ℕ) (p : Publish) where
    heard_by-Read :
        (k : Link S) (w : Heard × S)
        → (w.0 ≡ answered → client.connects w.1 ≡ e → history.Read p w.1)
        → (heard_by client echo id k w).0 ≡ ok tt
        → client.connects (heard_by client echo id k w).1.conn ≡ e
        → history.Read p (heard_by client echo id k w).1.conn
    heard_by-Read k (answered, s) h o same = h refl same
    heard_by-Read k (dropped, s) h o same = ground (arith, o)
    heard_by-Read k (timed_out, s) h o same = ground (arith, o)

    asked-Read :
        (k : Link S) (r : Result String (Unit {0}) × S)
        → (r.0 ≡ ok tt
            → (client.wait_echo id r.1).0 ≡ answered
            → client.connects (client.wait_echo id r.1).1 ≡ e
            → history.Read p (client.wait_echo id r.1).1)
        → (asked client echo id k r).0 ≡ ok tt
        → client.connects (asked client echo id k r).1.conn ≡ e
        → history.Read p (asked client echo id k r).1.conn
    asked-Read k (ok u, s) h o same = heard_by-Read k (client.wait_echo id s) (h refl) o same
    asked-Read k (err f, s) h o same = ground (arith, o)

  barrier-Read :
      (e : ℕ) (p : Publish) (l : Link S)
      → history.Sent e p l.conn
      → (barrier client echo l).0 ≡ ok tt
      → client.connects (barrier client echo l).1.conn ≡ e
      → history.Read p (barrier client echo l).1.conn
  unfolding barrier
  barrier-Read e p l sent o same =
      asked-Read e l.next_id p (entered client echo l)
        (client.publish (echo, be_bytes 8 l.next_id) l.conn)
        (λ a b c. laws.echo-Read echo l.next_id e p l.conn sent a b c) o same

  if_same : (b : Bool) → Link S → Result String (Unit {0}) × Link S
  if_same b l = if b then (ok tt, l) else (err "the connection was replaced during the batch", l)

  if_same-ok :
      (b : Bool) (l : Link S)
      → (if_same b l).0 ≡ ok tt
      → (b ≡ true) × ((if_same b l).1.conn ≡ l.conn)
  unfolding if_same
  if_same-ok true l o = (refl, refl)
  if_same-ok false l o = ground (arith, o)

  -- `since` gives Ok only on the connection that it names.
  since-ok :
      (e : ℕ) (r : Result String (Unit {0}) × Link S)
      → (since client echo e r).0 ≡ ok tt
      → (r.0 ≡ ok tt) × (client.connects r.1.conn ≡ e) × ((since client echo e r).1.conn ≡ r.1.conn)
  unfolding if_same
  since-ok e (ok u, l) o =
      let (same, conn) = if_same-ok (epoch client echo l == e) l o in
      (refl, ground (arith, same), conn)
  since-ok e (err f, l) o = ground (arith, o)

  then_barrier-Read :
      (e : ℕ) (ps : List Publish) (r : Result String (Unit {0}) × Link S)
      → e ≤ client.connects r.1.conn
      → Sends e ps r
      → (then_barrier client echo e r).0 ≡ ok tt
      → AllRead ps (then_barrier client echo e r).1.conn
  unfolding barrier_since Sends
  then_barrier-Read e ps (err f, l) le h o = ground (arith, o)
  then_barrier-Read e ps (ok u, l) le h o =
      let (heard, there, conn) = since-ok e (barrier client echo l) o in
      let after = barrier-Steps Anything l tt in
      let here : client.connects l.conn ≡ e = omega (arith, there, le, after.later.connections) in
      subst (AllRead ps) (sym conn)
        (All-map ps (λ p sent. barrier-Read e p l sent heard there) (h here))

  confirm_up-Read :
      (b : Bool) (ps : List Publish) (l : Link S)
      → (confirm_up client echo b ps l).0 ≡ ok tt
      → AllRead ps (confirm_up client echo b ps l).1.conn
  confirm_up-Read false ps l o = ground (arith, o)
  confirm_up-Read true ps l o =
      then_barrier-Read (epoch client echo l) ps (send_all client echo ps l)
        ((send_all-Steps Anything ps l (any ps)).later.connections)
        (send_all-Sends (epoch client echo l) ps l (omega arith)) o

  -- A batch that is confirmed has been read by the server: each publish that it held, whatever the
  -- connections did meanwhile.
  pub confirm-Read :
      (held : List Publish) (l : Link S)
      → (confirm client echo held l).0 ≡ ok tt
      → AllRead held (confirm client echo held l).1.1.conn
  unfolding confirm
  confirm-Read [] l o = tt
  confirm-Read (p ∷ ps) l o = confirm_up-Read (up client echo l) (p ∷ ps) l o

  -- A batch is empty after `confirm`, whatever that returns.
  pub confirm-empty : (held : List Publish) (l : Link S) → (confirm client echo held l).1.0 ≡ []
  unfolding confirm
  confirm-empty [] l = refl
  confirm-empty (p ∷ ps) l = refl
