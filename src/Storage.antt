-- ===== src/Storage.antt =====
-- pkg/cos/cos.go: Put, Head and Get on an object storage. The client of its SDK, which New makes, is a
-- parameter, over whatever state the service has.
pub mod Releases
use tcp_gateway.Prelude.{ℕ, ◌+◌, ◌-◌, ◌⊎◌, inl, inr, Option, none, some, List, [], ◌∷◌}
use tcp_gateway.Bytes.{Bytes}
use tcp_gateway.Text.{Text}
use tcp_gateway.Interfaces.{Error}

-- A response: the ETag of its header, and what its body gives, up to an error where reading fails.
pub record Response : Type 0 where
  pub etag : Text
  pub body : Bytes
  pub broken : Option Error

-- client.Object of the SDK: what a request is answered, and the service behind it.
pub record ObjectService (S : Type 0) : Type 0 where
  pub put : Text → Bytes → S → (Error ⊎ Response) × S
  pub head : Text → S → (Error ⊎ Response) × S
  pub get : Text → S → (Error ⊎ Response) × S

-- What a COS has in use: the contexts that are not cancelled, and the response bodies that are open.
pub record Cos (S : Type 0) : Type 0 where
  pub service : S
  pub contexts : ℕ
  pub bodies : ℕ

-- context.WithTimeout, and its cancel.
abbrev pub with_timeout : {S : Type 0} → Cos S → Cos S
with_timeout w = record w { contexts = w.contexts + 1 }

abbrev pub cancel : {S : Type 0} → Cos S → Cos S
cancel w = record w { contexts = w.contexts - 1 }

-- A response comes with its body open.
abbrev pub received : {S : Type 0} → Error ⊎ Response → S → Cos S → Cos S
received (inl e) s w = record w { service = s }
received (inr r) s w = record w { service = s; bodies = w.bodies + 1 }

abbrev pub close_body : {S : Type 0} → Cos S → Cos S
close_body w = record w { bodies = w.bodies - 1 }

-- What an operation returns.
pub data Returned : Type 0 where
  stored : Returned
  tagged : Text → Returned
  content : Bytes → Text → Returned
  failed : Error → Returned

abbrev pub after_put : {S : Type 0} → Error ⊎ Response → Cos S → Returned × Cos S
after_put (inl e) w = (failed e, cancel w)
after_put (inr r) w = (stored, cancel (close_body w))

abbrev pub after_head : {S : Type 0} → Error ⊎ Response → Cos S → Returned × Cos S
after_head (inl e) w = (failed e, cancel w)
after_head (inr r) w = (tagged r.etag, cancel (close_body w))

-- io.ReadAll, and what is made of it.
abbrev pub read_all : {S : Type 0} → Response → Option Error → Cos S → Returned × Cos S
read_all r (some e) w = (failed e, cancel (close_body w))
read_all r none w = (content r.body r.etag, cancel (close_body w))

abbrev pub after_get : {S : Type 0} → Error ⊎ Response → Cos S → Returned × Cos S
after_get (inl e) w = (failed e, cancel w)
after_get (inr r) w = read_all r r.broken w

module _ {S : Type 0} (client : ObjectService S) where
  unfoldable pub put : Text → Bytes → Cos S → Returned × Cos S
  put path buf w =
      let (a, s) = client.put path buf w.service in after_put a (received a s (with_timeout w))

  unfoldable pub head : Text → Cos S → Returned × Cos S
  head path w =
      let (a, s) = client.head path w.service in after_head a (received a s (with_timeout w))

  unfoldable pub get : Text → Cos S → Returned × Cos S
  get path w = let (a, s) = client.get path w.service in after_get a (received a s (with_timeout w))

-- Calls of the three.
pub data Call : Type 0 where
  putting : Text → Bytes → Call
  heading : Text → Call
  getting : Text → Call

module _ {S : Type 0} (client : ObjectService S) where
  unfoldable pub perform : Call → Cos S → Returned × Cos S
  perform (putting path buf) w = put client path buf w
  perform (heading path) w = head client path w
  perform (getting path) w = get client path w

  unfoldable pub perform_all : List Call → Cos S → List Returned × Cos S
  perform_all [] w = ([], w)
  perform_all (c ∷ cs) w =
      let (r, w') = perform c w in let (rs, w'') = perform_all cs w' in (r ∷ rs, w'')
