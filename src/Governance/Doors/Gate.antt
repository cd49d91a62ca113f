-- ===== src/Governance/Doors/Gate.antt =====
-- The write gate (core/src/main.rs, `handle_request`): what a request must show to be let through.
use mathlib.Core.List.{Memᴰ}
use vejas.Base.{
  String, ◌≡◌, refl, ◌∙◌, ap, subst, Bool, true, false, not, ◌&&◌, ◌||◌, Option, none, some, List,
  [], ◌∷◌, ◌++◌, any, ◌==◌, if_cases, arith,
}
use vejas.Vjs.Token.{Bytes}
use vejas.Governance.Doors.{
  ct_eq, Header, Method, is_read_method, is_human_route, bearer, strip_bytes, credential, shows,
  authorized_by, approval_authorized, stripped_eq, bearer_authorized, refused_by, write_refused,
}
use vejas.Governance.Doors.Equal.{ct_eq-eq}

any_cons :
    {A : Type 0} (p : A → Bool) (x : A) (xs : List A) (b : Bool)
    → p x ≡ b
    → (any p xs ≡ true → (y : A) × Memᴰ y xs × (p y ≡ true))
    → (b || any p xs) ≡ true
    → (y : A) × Memᴰ y (x ∷ xs) × (p y ≡ true)
any_cons p x xs true h rest e = (x, Memᴰ.head refl, h)
any_cons p x xs false h rest e = let (y, i, k) = rest e in (y, Memᴰ.tail i, k)

any-Memᴰ :
    {A : Type 0} (p : A → Bool) (xs : List A) → any p xs ≡ true → (y : A) × Memᴰ y xs × (p y ≡ true)
any-Memᴰ p [] e = ground (arith, e)
any-Memᴰ p (x ∷ xs) e = any_cons p x xs (p x) refl (any-Memᴰ p xs) e

some-inj : {A : Type 0} {a b : A} → some a ≡ some b → a ≡ b
some-inj h = ground (arith, h)

strip_bytes-append : (cs bs rest : Bytes) → strip_bytes cs bs ≡ some rest → bs ≡ cs ++ rest
unfolding strip_bytes
strip_bytes-append [] bs rest e = some-inj e
strip_bytes-append (c ∷ cs) [] rest e = ground (arith, e)
strip_bytes-append (c ∷ cs) (b ∷ bs) rest e =
    if_cases (λ (o : Option Bytes). o ≡ some rest → b ∷ bs ≡ c ∷ (cs ++ rest)) (c == b)
      (λ t h.
        ap (λ z. z ∷ bs) (ground (arith, t)) ∙ ap (λ zs. c ∷ zs) (strip_bytes-append cs bs rest h))
      (λ f h. ground (arith, h)) e

module _ (equiv : String → String → Bool) where
  -- The request has a header of this name with exactly this value.
  pub record Shows (headers : List Header) (name : String) (value : Bytes) : Type 0 where
    pub field : String
    pub named : equiv field name ≡ true
    pub there : Memᴰ (field, value) headers

  any-Shows :
      (headers : List Header) (name : String) (test : Bytes → Bool) (value : Bytes)
      → ((v : Bytes) → test v ≡ true → v ≡ value)
      → any (λ h. shows equiv name test h) headers ≡ true
      → Shows headers name value
  any-Shows headers name test value exact e =
      let (h, i, k) = any-Memᴰ (λ h. shows equiv name test h) headers e in
      let same = exact h.1 (ground (arith, k)) in
      record {
        field = h.0;
        named = ground (arith, k);
        there = subst (λ v. Memᴰ (h.0, v) headers) same i;
      }

  -- What lets a request through the write gate: no credential is set, or it reads, or it shows the
  -- write credential, or it goes to a door of the human and shows the approval credential.
  pub data MayWrite (token approval : Option Bytes) (method : Method) (path : String)
      (headers : List Header) : Type 0 where
    open_door : credential token ≡ none → MayWrite token approval method path headers
    reads : is_read_method method ≡ true → MayWrite token approval method path headers
    bears :
        (t : Bytes)
        → credential token ≡ some t
        → Shows headers "authorization" (bearer ++ t)
        → MayWrite token approval method path headers
    human :
        (t : Bytes)
        → is_human_route path ≡ true
        → credential approval ≡ some t
        → Shows headers "x-approval-token" t
        → MayWrite token approval method path headers

  stripped-eq :
      (token v : Bytes) (o : Option Bytes)
      → strip_bytes bearer v ≡ o
      → stripped_eq equiv token o ≡ true
      → v ≡ bearer ++ token
  stripped-eq token v none e t = ground (arith, t)
  stripped-eq token v (some rest) e t =
      strip_bytes-append bearer v rest e ∙ ap (λ r. bearer ++ r) (ct_eq-eq rest token t)

  bearer-Shows :
      (token : Bytes) (headers : List Header)
      → bearer_authorized equiv token headers ≡ true
      → Shows headers "authorization" (bearer ++ token)
  unfolding bearer_authorized
  bearer-Shows token headers e =
      any-Shows headers "authorization" (λ v. stripped_eq equiv token (strip_bytes bearer v))
        (bearer ++ token) (λ v t. stripped-eq token v (strip_bytes bearer v) refl t) e

  authorized-Shows :
      (headers : List Header) (o : Option Bytes)
      → authorized_by equiv headers o ≡ true
      → (t : Bytes) × (o ≡ some t) × Shows headers "x-approval-token" t
  authorized-Shows headers none e = ground (arith, e)
  authorized-Shows headers (some t) e =
      (t, refl, any-Shows headers "x-approval-token" (λ v. ct_eq v t) t (λ v h. ct_eq-eq v t h) e)

  by_test :
      (token approval : Option Bytes) (method : Method) (path : String) (headers : List Header)
      (t : Bytes) (reading bearing at_human by_human : Bool)
      → credential token ≡ some t
      → is_read_method method ≡ reading
      → bearer_authorized equiv t headers ≡ bearing
      → is_human_route path ≡ at_human
      → approval_authorized equiv approval headers ≡ by_human
      → (not reading && not bearing && not (at_human && by_human)) ≡ false
      → MayWrite token approval method path headers
  unfolding approval_authorized
  by_test token approval method path headers t true b c d set r e h a k = reads r
  by_test token approval method path headers t false true c d set r e h a k =
      bears t set (bearer-Shows t headers e)
  by_test token approval method path headers t false false true true set r e h a k =
      let (s, is, shown) = authorized-Shows headers (credential approval) a in human s h is shown
  by_test token approval method path headers t false false true false set r e h a k =
      ground (arith, k)
  by_test token approval method path headers t false false false d set r e h a k = ground (arith, k)

  by_token :
      (token approval : Option Bytes) (method : Method) (path : String) (headers : List Header)
      (o : Option Bytes)
      → credential token ≡ o
      → refused_by equiv o approval method path headers ≡ false
      → MayWrite token approval method path headers
  by_token token approval method path headers none set e = open_door set
  by_token token approval method path headers (some t) set e =
      by_test token approval method path headers t _ _ _ _ set refl refl refl refl e

  -- A request that the write gate lets through reads, or no write credential is set, or it has a header
  -- with exactly the write credential, or it goes to a door of the human and has a header with exactly
  -- the approval credential, which is set and not empty.
  pub write_refused-MayWrite :
      (token approval : Option Bytes) (method : Method) (path : String) (headers : List Header)
      → write_refused equiv token approval method path headers ≡ false
      → MayWrite token approval method path headers
  unfolding write_refused
  write_refused-MayWrite token approval method path headers e =
      by_token token approval method path headers (credential token) refl e
