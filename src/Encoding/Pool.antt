-- ===== src/Encoding/Pool.antt =====
-- The encodeStates of pkg/encoding/encode.go, which Marshal and MarshalToWriter take from a pool and put
-- back unless there was an error. Which one of those in the pool sync.Pool hands out, or none, is an
-- argument of each call: its number.
use tcp_gateway.Prelude.{
  ℕ, zero, suc, Bool, ◌≡◌, refl, ap, ap₂, Option, none, some, List, [], ◌∷◌, ◌++◌, All, map,
}
use tcp_gateway.Bytes.{Bytes}
use tcp_gateway.Text.{Text}
use tcp_gateway.Interfaces.{Error}
use tcp_gateway.Encoding.{Value, Encoded, wrote, failed, panics, EncodeError, encode, marshal}

-- `encodeState`: what was written, and the levels and addresses of pointers. `scratch` is written
-- before it is read.
pub record EncodeState : Type 0 where
  pub buffer : Bytes
  pub ptr_level : ℕ
  pub ptr_seen : List ℕ

-- Get: the state with the number, and the pool without it.
abbrev pub take_out : ℕ → List EncodeState → Option EncodeState × List EncodeState
take_out i [] = (none, [])
take_out zero (e ∷ pool) = (some e, pool)
take_out (suc i) (e ∷ pool) = let r = take_out i pool in (r.0, e ∷ r.1)

-- `newEncodeState`; none is its panic.
abbrev pub new_encode_state : Option EncodeState → Option EncodeState
new_encode_state none = some (record { buffer = []; ptr_level = 0; ptr_seen = [] })
new_encode_state (some e) = elim e.ptr_seen [
  | [] ↦ some (record e { buffer = []; ptr_level = 0 })
  | _ ∷ _ ↦ none
]

-- How a call ends: the bytes in the buffer, an error of the encoder or of the writer, or a panic.
pub data Result : Type 0 where
  returned : Bytes → Result
  encode_failed : EncodeError → Result
  write_failed : Error → Result
  panicked : Result

module _ (exported : Text → Bool) where
  -- `encode` on a state. The deferred calls take its level and addresses back.
  abbrev pub finish :
      EncodeState
      → Encoded
      → (EncodeState → List EncodeState × Result)
      → List EncodeState
      → List EncodeState × Result
  finish e (wrote b) put pool = put (record e { buffer = e.buffer ++ b })
  finish e (failed x) put pool = (pool, encode_failed x)
  finish e panics put pool = (pool, panicked)

  abbrev pub with_state :
      Option EncodeState
      → Value
      → (EncodeState → List EncodeState × Result)
      → List EncodeState
      → List EncodeState × Result
  with_state none v put pool = (pool, panicked)
  with_state (some e) v put pool = finish e (encode exported e.ptr_level e.ptr_seen v) put pool

  -- `Marshal`.
  unfoldable pub marshal_pooled : ℕ → Value → List EncodeState → List EncodeState × Result
  marshal_pooled i v pool =
      let r = take_out i pool in
      with_state (new_encode_state r.0) v (λ e. (e ∷ r.1, returned e.buffer)) r.1

  -- `MarshalToWriter`, on a writer that returns the error, or takes the bytes.
  unfoldable pub marshal_to_writer :
      Option Error → ℕ → Value → List EncodeState → List EncodeState × Result
  marshal_to_writer answer i v pool =
      let r = take_out i pool in
      with_state (new_encode_state r.0) v
        (λ e. elim answer [ none ↦ (e ∷ r.1, returned e.buffer) | some x ↦ (r.1, write_failed x) ])
        r.1

  -- A call of either, with the value.
  pub data Call : Type 0 where
    marshalling : ℕ → Value → Call
    writing : Option Error → ℕ → Value → Call

  abbrev pub perform : Call → List EncodeState → List EncodeState × Result
  perform (marshalling i v) = marshal_pooled i v
  perform (writing answer i v) = marshal_to_writer answer i v

  pub run : List Call → List EncodeState → List Result
  run [] pool = []
  run (c ∷ cs) pool = let r = perform c pool in r.1 ∷ run cs r.0

  -- The same without a pool.
  abbrev pub result_of : Encoded → Option Error → Result
  result_of (wrote b) none = returned b
  result_of (wrote b) (some e) = write_failed e
  result_of (failed x) answer = encode_failed x
  result_of panics answer = panicked

  abbrev pub expected : Call → Result
  expected (marshalling i v) = result_of (marshal exported v) none
  expected (writing answer i v) = result_of (marshal exported v) answer

  abbrev IsClean : EncodeState → Type 0
  IsClean e = e.ptr_seen ≡ []

  take_out-IsClean :
      (i : ℕ) (pool : List EncodeState)
      → All IsClean pool
      → All IsClean (take_out i pool).1
        × (new_encode_state (take_out i pool).0
            ≡ some (record { buffer = []; ptr_level = 0; ptr_seen = [] }))
  take_out-IsClean i [] h = (tt, refl)
  take_out-IsClean zero (e ∷ pool) (h, hs) =
      (hs, rw h (ap (λ s. some (record { buffer = []; ptr_level = 0; ptr_seen = s })) h))
  take_out-IsClean (suc i) (e ∷ pool) (h, hs) =
      let (a, b) = take_out-IsClean i pool hs in ((h, a), b)

  finish-IsClean :
      (r : Encoded) (answer : Option Error) (pool : List EncodeState)
      → All IsClean pool
      → let e : EncodeState = record { buffer = []; ptr_level = 0; ptr_seen = [] } in
        let p =
          finish e r
            (λ e. elim answer [
              | none ↦ (e ∷ pool, returned e.buffer)
              | some x ↦ (pool, write_failed x)
            ])
            pool in
        All IsClean p.0 × (p.1 ≡ result_of r answer)
  finish-IsClean (wrote b) none pool h = ((refl, h), refl)
  finish-IsClean (wrote b) (some e) pool h = (h, refl)
  finish-IsClean (failed x) answer pool h = (h, refl)
  finish-IsClean panics answer pool h = (h, refl)

  perform-IsClean :
      (c : Call) (pool : List EncodeState)
      → All IsClean pool
      → All IsClean (perform c pool).0 × ((perform c pool).1 ≡ expected c)
  unfolding marshal_pooled marshal_to_writer marshal
  perform-IsClean (marshalling i v) pool h =
      let (clean, e) = take_out-IsClean i pool h in
      rw e (finish-IsClean (encode exported 0 [] v) none (take_out i pool).1 clean)
  perform-IsClean (writing answer i v) pool h =
      let (clean, e) = take_out-IsClean i pool h in
      rw e (finish-IsClean (encode exported 0 [] v) answer (take_out i pool).1 clean)

  run-expected_from :
      (cs : List Call) (pool : List EncodeState) → All IsClean pool → run cs pool ≡ map expected cs
  unfolding run
  run-expected_from [] pool h = refl
  run-expected_from (c ∷ cs) pool h =
      let (clean, e) = perform-IsClean c pool h in
      ap₂ ◌∷◌ e (run-expected_from cs (perform c pool).0 clean)

  -- In any row of calls of Marshal and MarshalToWriter from an empty pool, some of which may fail or
  -- panic, and whichever encodeStates the pool hands out again, each call ends as it does without a
  -- pool: nothing of an earlier value is left in what it writes, and newEncodeState does not panic.
  pub run-expected : (cs : List Call) → run cs [] ≡ map expected cs
  run-expected cs = run-expected_from cs [] tt
