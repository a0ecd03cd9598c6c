-- ===== src/Stress/Echo.antt =====
-- stressGatewayTCP of cmd/stress/stress.go against a gateway in the development environment, whose
-- plugin StressTest sends the message back.
use tcp_gateway.Prelude.{
  ℕ, ◌+◌, ◌≤◌, ◌≡◌, sym, subst, ap, Bool, true, none, some, [], ◌∷◌, ◌++◌, arith, length,
  length-append, append-nil,
}
use tcp_gateway.Bytes.{Bytes}
use tcp_gateway.Text.{Text}
use tcp_gateway.Encoding.{marshal, encode, encode_string, wrote, index_zero}
use tcp_gateway.Plugins.{Session, Env, task, concurrent_task, rate_limit_end_middle, stress_test}
use tcp_gateway.Stress.{Stats, send_buf, round, echo_round, echo_id, echo_request, message_name}
use tcp_gateway.Stress.Rounds.{Ready, Answers, play, play_lem, counted}

Answers-echo :
    (env : Env) (s : Session) (b : Bytes)
    → env.dev ≡ true
    → Ready s
    → Answers env s (record { id = echo_id; body = b }) echo_id b
unfolding task concurrent_task rate_limit_end_middle stress_test
Answers-echo env s b d r = record {
  answered = ground arith;
  still = ground arith;
  open_still = ground arith;
  given_back = ground arith;
}

marshal-echo_request :
    (exported : Text → Bool) (message : Text)
    → exported message_name ≡ true
    → index_zero message ≡ none
    → marshal exported (echo_request message) ≡ wrote (message ++ 0 ∷ [])
unfolding marshal encode
marshal-echo_request exported message x z =
    rw (x, z, encode_string) (ap wrote (append-nil (message ++ 0 ∷ [])))

-- The echo test finds no fault in a gateway in the development environment: from a connection with
-- nothing under way and no error, each of its rounds counts a success and none an error, for every
-- message without a zero that fits in a frame, where the field Message counts as exported, and the
-- connection is left as it was found.
pub echo-play :
    (env : Env) (exported : Text → Bool) (message : Text) (n : ℕ) (s : Session) (stats : Stats)
    → env.dev ≡ true
    → exported message_name ≡ true
    → index_zero message ≡ none
    → length message ≤ 1048565
    → Ready s
    → (request : Bytes) × (marshal exported (echo_request message) ≡ wrote request)
      × (t : Session) × (play env
            (send_buf echo_id request)
            (echo_round exported message none)
            n
            s
            stats
          ≡ some (t, counted stats n))
      × Ready t
unfolding echo_round
echo-play env exported message n s stats d x z small r =
    let len : length (message ++ 0 ∷ []) ≡ length message + 1 = length-append message (0 ∷ []) in
    let m = marshal-echo_request exported message x z in
    let (t, e, ready) =
      play_lem env echo_id echo_id (message ++ 0 ∷ []) (message ++ 0 ∷ []) n s stats
        (record {
          id_from = omega arith;
          id_to = omega arith;
          size_from = omega arith;
          size_to = omega (arith, len);
        })
        (omega arith) (omega (arith, len)) (λ u v. Answers-echo env u (message ++ 0 ∷ []) d v) r in
    (
      message ++ 0 ∷ [],
      m,
      t,
      subst
          (λ w.
            play env (send_buf echo_id (message ++ 0 ∷ [])) (λ u c. round echo_id w none u c) n s
              stats
            ≡ some (t, counted stats n))
          (sym m) e,
      ready,
    )
