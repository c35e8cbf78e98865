-- ===== src/Pdp/Exchange.antt =====
-- A handler talks to a decision point: it ends with a value or an error, or it sends an HTTP
-- request and goes on with the reply.
use mcp_opa.Base.{
  ℕ, ◌≡◌, refl, ap, ◌∙◌, List, [], ◌∷◌, ◌++◌, Option, Bytes, String, Result, ok, err, ok-injective,
  map_err, map_err-eq-ok, sym,
}
use mcp_opa.Base.Results

pub record HttpRequest : Type 0 where
  pub method : String
  pub url : Bytes
  pub headers : List (String × Bytes)
  pub body : Bytes

-- What the body yields, and the error that breaks it off, if one does.
pub record Body : Type 0 where
  pub content : Bytes
  pub fault : Option Bytes

-- The transport failed (a timeout too), or the server replied. A reply may have a header Location
-- that is not empty.
pub data HttpReply : Type 0 where
  no_reply : Bytes → HttpReply
  response : ℕ → Option Bytes → Body → HttpReply

pub data Exchange {ℓ} (E : Type 0) (A : Type ℓ) : Type ℓ where
  done : A → Exchange E A
  failed : E → Exchange E A
  send : HttpRequest → (HttpReply → Exchange E A) → Exchange E A

infixl 5 ◌>>=◌ ◌>>◌
abbrev pub ◌>>=◌ {ℓ κ} :
    {E : Type 0} {A : Type ℓ} {B : Type κ} → Exchange E A → (A → Exchange E B) → Exchange E B
done a >>= f = f a
failed e >>= f = failed e
send r k >>= f = send r (λ reply. k reply >>= f)

abbrev pub ◌>>◌ {ℓ} :
    {E : Type 0} {B : Type ℓ} → Exchange E (Unit {0}) → Exchange E B → Exchange E B
m >> k = m >>= λ _. k

-- A step that sends nothing; its error is reported as the handler does.
abbrev pub attempt {ℓ} : {E F : Type 0} {A : Type ℓ} → (E → F) → Result E A → Exchange F A
attempt report (ok a) = done a
attempt report (err e) = failed (report e)

abbrev pub relabel {ℓ} : {E F : Type 0} {A : Type ℓ} → (E → F) → Exchange E A → Exchange F A
relabel report (done a) = done a
relabel report (failed e) = failed (report e)
relabel report (send r k) = send r (λ reply. relabel report (k reply))

-- The network: what comes back for a request.
abbrev pub Network : Type 0
Network = HttpRequest → HttpReply

-- What the handler ends with, and the requests that it has sent by then.
module _ {ℓ} {E : Type 0} {A : Type ℓ} (net : Network) where
  unfoldable pub answer : Exchange E A → Result E A
  answer (done a) = ok a
  answer (failed e) = err e
  answer (send r k) = answer (k (net r))

  unfoldable pub requests : Exchange E A → List HttpRequest
  requests (done a) = []
  requests (failed e) = []
  requests (send r k) = r ∷ requests (k (net r))

module _ {ℓ κ} {E : Type 0} {A : Type ℓ} {B : Type κ} (net : Network) where
  pub answer->>= :
      (m : Exchange E A) (f : A → Exchange E B)
      → answer net (m >>= f) ≡ Results.◌>>=◌ (answer net m) (λ a. answer net (f a))
  unfolding answer
  answer->>= (done a) f = refl
  answer->>= (failed e) f = refl
  answer->>= (send r k) f = answer->>= (k (net r)) f

  -- The parts of a handler that succeeds, and of one that fails.
  pub answer->>=-eq-ok :
      (m : Exchange E A) (f : A → Exchange E B) {b : B}
      → answer net (m >>= f) ≡ ok b
      → (a : A) × (answer net m ≡ ok a) × (answer net (f a) ≡ ok b)
  unfolding answer
  answer->>=-eq-ok (done a) f h = (a, refl, h)
  answer->>=-eq-ok (failed e) f h = cc
  answer->>=-eq-ok (send r k) f h = answer->>=-eq-ok (k (net r)) f h

  pub answer->>=_of_ok :
      (m : Exchange E A) (f : A → Exchange E B) (a : A)
      → answer net m ≡ ok a
      → answer net (m >>= f) ≡ answer net (f a)
  answer->>=_of_ok m f a h = answer->>= m f ∙ rw h

  pub answer->>=_of_err :
      (m : Exchange E A) (f : A → Exchange E B) (e : E)
      → answer net m ≡ err e
      → answer net (m >>= f) ≡ err e
  answer->>=_of_err m f e h = rw (answer->>= m f, h)

  pub requests->>=_of_ok :
      (m : Exchange E A) (f : A → Exchange E B) (a : A)
      → answer net m ≡ ok a
      → requests net (m >>= f) ≡ requests net m ++ requests net (f a)
  unfolding answer requests
  requests->>=_of_ok (done b) f a h = rw (ok-injective h)
  requests->>=_of_ok (failed e) f a h = cc
  requests->>=_of_ok (send r k) f a h = ap (◌∷◌ r) (requests->>=_of_ok (k (net r)) f a h)

  pub requests->>=_of_err :
      (m : Exchange E A) (f : A → Exchange E B) (e : E)
      → answer net m ≡ err e
      → requests net (m >>= f) ≡ requests net m
  unfolding answer requests
  requests->>=_of_err (done b) f e h = cc
  requests->>=_of_err (failed d) f e h = refl
  requests->>=_of_err (send r k) f e h = ap (◌∷◌ r) (requests->>=_of_err (k (net r)) f e h)

module _ {ℓ} {E F : Type 0} {A : Type ℓ} (net : Network) (report : E → F) where
  pub answer-attempt : (m : Result E A) {a : A} → answer net (attempt report m) ≡ ok a → m ≡ ok a
  unfolding answer
  answer-attempt (ok b) h = ap ok (ok-injective h)
  answer-attempt (err e) h = cc

  pub requests-attempt : (m : Result E A) → requests net (attempt report m) ≡ []
  unfolding requests
  requests-attempt (ok a) = refl
  requests-attempt (err e) = refl

  pub answer-relabel :
      (m : Exchange E A) → answer net (relabel report m) ≡ map_err report (answer net m)
  unfolding answer
  answer-relabel (done a) = refl
  answer-relabel (failed e) = refl
  answer-relabel (send r k) = answer-relabel (k (net r))

  pub requests-relabel : (m : Exchange E A) → requests net (relabel report m) ≡ requests net m
  unfolding requests
  requests-relabel (done a) = refl
  requests-relabel (failed e) = refl
  requests-relabel (send r k) = ap (◌∷◌ r) (requests-relabel (k (net r)))

  pub answer-relabel-eq-ok :
      (m : Exchange E A) {a : A} → answer net (relabel report m) ≡ ok a → answer net m ≡ ok a
  answer-relabel-eq-ok m h = map_err-eq-ok report (answer net m) (sym (answer-relabel m) ∙ h)

-- A step that sends nothing either hands on its value or ends the handler.
module _ {ℓ κ} {E F : Type 0} {A : Type ℓ} {B : Type κ} (report : E → F)
    (f : A → Exchange F B) where
  pub attempt->>=_of_ok : {m : Result E A} {a : A} → m ≡ ok a → (attempt report m >>= f) ≡ f a
  attempt->>=_of_ok h = ap (λ m. attempt report m >>= f) h

  pub attempt->>=_of_err :
      {m : Result E A} {e : E} → m ≡ err e → (attempt report m >>= f) ≡ failed (report e)
  attempt->>=_of_err h = ap (λ m. attempt report m >>= f) h

-- What follows sends nothing.
module _ {ℓ κ} {E : Type 0} {A : Type ℓ} {B : Type κ} (net : Network) (f : A → Exchange E B) where
  pub requests->>=_quiet :
      (m : Exchange E A)
      → ((a : A) → requests net (f a) ≡ [])
      → requests net (m >>= f) ≡ requests net m
  unfolding requests
  requests->>=_quiet (done a) quiet = quiet a
  requests->>=_quiet (failed e) quiet = refl
  requests->>=_quiet (send r k) quiet = ap (◌∷◌ r) (requests->>=_quiet (k (net r)) quiet)
