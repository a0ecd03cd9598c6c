-- ===== src/Storage/Releases.antt =====
-- pkg/cos/cos.go: one request for each call, and nothing is left in use.
use tcp_gateway.Prelude.{
  ◌≡◌, refl, ap, ap₂, arith, ◌⊎◌, inl, inr, Option, Option-cases, none, some, List, [], ◌∷◌,
}
use tcp_gateway.Bytes.{Bytes}
use tcp_gateway.Text.{Text}
use tcp_gateway.Interfaces.{Error}
use tcp_gateway.Storage.{
  Response, ObjectService, Cos, with_timeout, received, Returned, stored, tagged, content, failed,
  after_put, after_head, after_get, cancel, close_body, put, head, get, Call, putting, heading,
  getting, perform, perform_all,
}

abbrev if_whole : Option Error → Returned → Returned
if_whole none r = r
if_whole (some e) r = failed e

-- What a call asks of the service, without the bookkeeping, and what the caller is told.
pub told : Call → Error ⊎ Response → Returned
told c (inl e) = failed e
told (putting path buf) (inr r) = stored
told (heading path) (inr r) = tagged r.etag
told (getting path) (inr r) = if_whole r.broken (content r.body r.etag)

-- A context, or a context and a body, that was taken and given back.
given_back :
    {S : Type 0}
    → (w : Cos S) (s : S)
    → cancel (record (with_timeout w) { service = s }) ≡ record w { service = s }
given_back w s = ap (λ c. record { service = s; contexts = c; bodies = w.bodies }) (omega arith)

both_given_back :
    {S : Type 0}
    → (w : Cos S) (s : S) (r : Response)
    → cancel (close_body (received (inr r) s (with_timeout w))) ≡ record w { service = s }
both_given_back w s r =
    ap₂ (λ c b. record { service = s; contexts = c; bodies = b }) (omega arith) (omega arith)

after_put-told :
    {S : Type 0}
    → (path buf : Bytes) (a : Error ⊎ Response) (s : S) (w : Cos S)
    → after_put a (received a s (with_timeout w))
      ≡ (told (putting path buf) a, record w { service = s })
unfolding told
after_put-told path buf (inl e) s w = ap (λ x. (failed e, x)) (given_back w s)
after_put-told path buf (inr r) s w = ap (λ x. (stored, x)) (both_given_back w s r)

after_head-told :
    {S : Type 0}
    → (path : Text) (a : Error ⊎ Response) (s : S) (w : Cos S)
    → after_head a (received a s (with_timeout w))
      ≡ (told (heading path) a, record w { service = s })
unfolding told
after_head-told path (inl e) s w = ap (λ x. (failed e, x)) (given_back w s)
after_head-told path (inr r) s w = ap (λ x. (tagged r.etag, x)) (both_given_back w s r)

after_get-told :
    {S : Type 0}
    → (path : Text) (a : Error ⊎ Response) (s : S) (w : Cos S)
    → after_get a (received a s (with_timeout w))
      ≡ (told (getting path) a, record w { service = s })
unfolding told
after_get-told path (inl e) s w = ap (λ x. (failed e, x)) (given_back w s)
after_get-told path (inr r) s w = elim (Option-cases r.broken) [
  | inl e ↦ rw e (ap (λ x. (content r.body r.etag, x)) (both_given_back w s r))
  | inr (x, e) ↦ rw e (ap (λ y. (failed x, y)) (both_given_back w s r))
]

module _ {S : Type 0} (client : ObjectService S) where
  pub asked : Call → S → (Error ⊎ Response) × S
  asked (putting path buf) s = client.put path buf s
  asked (heading path) s = client.head path s
  asked (getting path) s = client.get path s

  pub asked_all : List Call → S → List Returned × S
  unfolding asked told
  asked_all [] s = ([], s)
  asked_all (c ∷ cs) s =
      let (a, s') = asked c s in let (rs, s'') = asked_all cs s' in (told c a ∷ rs, s'')

  perform-asked :
      (c : Call) (w : Cos S)
      → perform client c w
        ≡ (told c (asked c w.service).0, record w { service = (asked c w.service).1 })
  unfolding perform put head get asked told
  perform-asked (putting path buf) w =
      after_put-told path buf (client.put path buf w.service).0 (client.put path buf w.service).1 w
  perform-asked (heading path) w =
      after_head-told path (client.head path w.service).0 (client.head path w.service).1 w
  perform-asked (getting path) w =
      after_get-told path (client.get path w.service).0 (client.get path w.service).1 w

  -- In any calls on any service, each call makes its one request, in their order, and returns what the
  -- answer tells: the content of Get only if it was read to its end. The context of every call is
  -- cancelled and every response body closed, so that no more are in use than before.
  pub perform_all-asked_all :
      (cs : List Call) (w : Cos S)
      → perform_all client cs w
        ≡ ((asked_all cs w.service).0, record w { service = (asked_all cs w.service).1 })
  unfolding perform_all asked_all
  perform_all-asked_all [] w = refl
  perform_all-asked_all (c ∷ cs) w =
      let (a, s) = asked c w.service in
      rw (perform-asked c w, perform_all-asked_all cs (record w { service = s })) refl
