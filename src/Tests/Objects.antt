-- ===== src/Tests/Objects.antt =====
-- Calls of pkg/cos/cos.go on a service that holds one object.
use tcp_gateway.Prelude.{◌≡◌, ◌⊎◌, inl, inr, refl, Option, none, some, List, [], ◌∷◌}
use tcp_gateway.Bytes.{Bytes}
use tcp_gateway.Interfaces.{Error, other, unexpected_eof}
use tcp_gateway.Text.{Text}
use tcp_gateway.Storage.{
  Response, ObjectService, Cos, stored, content, failed, put, head, get, Call, putting, getting,
  perform, perform_all,
}
use tcp_gateway.Storage.Releases.{asked_all, perform_all-asked_all}

-- Whatever the path, the last content; nothing is found before the first Put. Of more than three bytes
-- the body breaks off.
abbrev tag : Text
tag = b't' ∷ []

abbrev response : Bytes → Error ⊎ Response
response (x ∷ y ∷ z ∷ u ∷ l) =
    inr (record { etag = tag; body = x ∷ y ∷ z ∷ []; broken = some unexpected_eof })
response l = inr (record { etag = tag; body = l; broken = none })

abbrev found : Option Bytes → Error ⊎ Response
found none = inl (other 404)
found (some l) = response l

abbrev one_object : ObjectService (Option Bytes)
one_object = record {
  put = λ path buf s. (response [], some buf);
  head = λ path s. (found s, s);
  get = λ path s. (found s, s);
}

abbrev idle : Cos (Option Bytes)
idle = record { service = none; contexts = 0; bodies = 0 }

abbrev calls : List Call
calls =
    getting tag
    ∷ putting tag (1 ∷ 2 ∷ [])
    ∷ getting tag
    ∷ putting tag (1 ∷ 2 ∷ 3 ∷ 4 ∷ [])
    ∷ getting tag
    ∷ []

all_returned : perform_all one_object calls idle ≡ (
  failed (other 404) ∷ stored ∷ content (1 ∷ 2 ∷ []) tag ∷ stored ∷ failed unexpected_eof ∷ [],
  record { service = some (1 ∷ 2 ∷ 3 ∷ 4 ∷ []); contexts = 0; bodies = 0 },
)
unfolding perform_all perform put head get
all_returned = refl

perform_all-asked_all_example : perform_all one_object calls idle ≡ (
  (asked_all one_object calls none).0,
  record idle { service = (asked_all one_object calls none).1 },
)
perform_all-asked_all_example = perform_all-asked_all one_object calls idle
