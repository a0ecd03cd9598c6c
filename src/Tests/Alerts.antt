-- ===== src/Tests/Alerts.antt =====
-- Alerts of pkg/feishu/feishu.go with a cache that keeps everything for 30 seconds.
use tcp_gateway.Prelude.{
  ℕ, ◌+◌, ◌≡◌, refl, Bool, true, false, ◌&&◌, ◌||◌, ◌⊎◌, some, List, [], ◌∷◌, ltb, length, arith,
}
use tcp_gateway.Text.{Text, same, same_iff, trim_space}
use tcp_gateway.Alerts.{Service, responded, look, add_and_post, alert, refused}
use tcp_gateway.Alerts.Goroutines.{
  Call, Event, looking, adding, start, run, goes_on, ignored, IsSpaced, Recent, Keeps,
}
use tcp_gateway.Alerts.Suppression.{run-IsSpaced}

abbrev Entries : Type 0
Entries = List (ℕ × Text)

abbrev is_held : Entries → ℕ → Text → Bool
is_held [] now key = false
is_held ((t, k) ∷ c) now key = (same k key && ltb now (t + 30)) || is_held c now key

abbrev service : Service Entries
service = record {
  held = is_held;
  add = λ c now k. (now, k) ∷ c;
  hmac_sha256 = λ t. t;
  encode64 = λ b. b;
  post = λ url q. responded (record { code = 7; msg = b'!' ∷ [] });
}

service-Keeps : Keeps service [] length
service-Keeps = record {
  size-empty = refl;
  size-add = λ c now k. omega arith;
  found = λ c now now' k l. ground (arith, same_iff k k);
  kept = λ c now now' k j l h. ground arith;
  nothing = λ now k. refl;
  only = λ c now now' k j h. ground (arith, same_iff k j);
}

abbrev at_time : ℕ → Call
at_time now = record {
  now = now;
  key = b'k' ∷ [];
  text = b't' ∷ [];
  url = b'u' ∷ [];
  secret = b's' ∷ [];
}

-- Two calls that look before either adds its key, and one that comes later.
abbrev events : List Event
events =
    looking (at_time 0) ∷ looking (at_time 1) ∷ adding 0 2 ∷ adding 0 3 ∷ looking (at_time 20) ∷ []

not_ignored : ignored service (at_time 60) ≡ false
unfolding same trim_space
not_ignored = refl

run-IsSpaced_example :
    let s = run service events (start []) in
    IsSpaced s.chat.posted s.looks
    × ((goes_on service (at_time 60) s.chat ≡ true) ⊎ Recent 60 (b'k' ∷ []) s.chat.posted)
run-IsSpaced_example =
    run-IsSpaced service [] length service-Keeps events (at_time 60) (omega arith) not_ignored

-- Both of the two are posted, a second apart, and the third is held back.
posted_twice :
    let s = run service events (start []) in
    (length s.chat.posted ≡ 2) × (s.started ≡ []) × (s.looks ≡ (0, 0) ∷ (1, 0) ∷ [])
unfolding look add_and_post same trim_space
posted_twice = (refl, refl, refl)

-- The error of the web hook is returned, and the alert counts as posted.
refused_post :
    (alert service 0
      (b'k' ∷ [])
      (b't' ∷ [])
      (b'u' ∷ [])
      (b's' ∷ [])
      (record { cache = []; posted = [] })).1
    ≡ some (refused (b'!' ∷ []))
unfolding alert look add_and_post same trim_space
refused_post = refl
