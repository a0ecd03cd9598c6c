-- ===== src/Alerts/Goroutines.antt =====
-- Goroutines that call Alert of pkg/feishu/feishu.go in any order of their steps, what they post, and
-- what its cache is documented to do.
use tcp_gateway.Prelude.{
  ℕ, zero, suc, leb, if◌then◌else◌, ◌++◌, ◌+◌, ◌≤◌, ◌<◌, ◌≡◌, ◌≢◌, Bool, true, false, ◌||◌, ◌⊎◌,
  List, [], ◌∷◌, length, All,
}
use tcp_gateway.Text.{Text, same}
use tcp_gateway.Alerts.{Request, Service, Chat, look, add_and_post, is_blank}

-- A call of `Alert`.
pub record Call : Type 0 where
  pub now : ℕ
  pub key : Text
  pub text : Text
  pub url : Text
  pub secret : Text

-- A post with its time and key.
abbrev pub Post : Type 0
Post = ℕ × Text × Request

-- The first n of the posts.
abbrev pub oldest : ℕ → List Post → List Post
oldest n [] = []
oldest n (p ∷ l) = if leb (length (p ∷ l)) n then p ∷ l else oldest n l

-- An earlier post has another key than a call, or lies 30 seconds before the Get of it.
abbrev pub IsApart : ℕ → Text → Post → Type 0
IsApart now key (t, k, q) = (k ≢ key) ⊎ (t + 30 ≤ now)

-- Each post has its Get, with the time of it and the number of posts that came before the Get, and is
-- apart from those.
abbrev pub IsSpaced : List Post → List (ℕ × ℕ) → Type 0
IsSpaced [] looks = Unit
IsSpaced (p ∷ l) [] = ⊥
IsSpaced (p ∷ l) ((now, seen) ∷ looks) =
    (seen ≤ length l) × All (IsApart now p.1) (oldest seen l) × IsSpaced l looks

-- The key was posted in the last 30 seconds.
abbrev pub Recent : ℕ → Text → List Post → Type 0
Recent now key [] = ⊥
Recent now key ((t, k, q) ∷ l) = ((k ≡ key) × (now ≤ t + 30)) ⊎ Recent now key l

-- A goroutine that is behind its Get, with the number of posts at that time.
pub record Started : Type 0 where
  pub call : Call
  pub seen : ℕ

-- The package and its goroutines; `looks` has the Get of each post, the latest post first.
pub record Goroutines (C : Type 0) : Type 0 where
  pub chat : Chat C
  pub started : List Started
  pub looks : List (ℕ × ℕ)

abbrev pub start : {C : Type 0} → C → Goroutines C
start empty = record { chat = record { cache = empty; posted = [] }; started = []; looks = [] }

-- A call up to its Get, and the other part of one that has started, at a time.
pub data Event : Type 0 where
  looking : Call → Event
  adding : ℕ → ℕ → Event

module _ {C : Type 0} (service : Service C) where
  abbrev pub goes_on : Call → Chat C → Bool
  goes_on a c = look service a.now a.key a.text a.url a.secret c.cache

  abbrev pub ignored : Call → Bool
  ignored a = is_blank a.key || (is_blank a.text || (same a.url [] || same a.secret []))

  -- The one with the number goes on at the time; `before` came before it.
  abbrev pub resume : ℕ → ℕ → List Started → List Started → Goroutines C → Goroutines C
  resume now k before [] s = s
  resume now (suc k) before (b ∷ bs) s = resume now k (b ∷ before) bs s
  resume now zero before (b ∷ bs) s = record {
    chat = (add_and_post service now b.call.key b.call.text b.call.url b.call.secret s.chat).0;
    started = before ++ bs;
    looks = (b.call.now, b.seen) ∷ s.looks;
  }

  abbrev pub perform : Event → Goroutines C → Goroutines C
  perform (looking a) s =
      if goes_on a s.chat
      then record s { started = (record { call = a; seen = length s.chat.posted }) ∷ s.started }
      else s
  perform (adding k now) s = resume now k [] s.started s

  abbrev pub run : List Event → Goroutines C → Goroutines C
  run [] s = s
  run (e ∷ es) s = run es (perform e s)

-- What the cache is documented to do: an entry is found for 30 seconds, unless it is pushed out, which
-- happens to a full cache only, and no longer.
pub record Keeps {C : Type 0} (service : Service C) (empty : C) (size : C → ℕ) : Type 0 where
  pub size-empty : size empty ≡ 0
  pub size-add : (c : C) (now : ℕ) (k : Text) → size (service.add c now k) ≤ size c + 1
  pub found :
      (c : C) (now now' : ℕ) (k : Text)
      → now' < now + 30
      → service.held (service.add c now k) now' k ≡ true
  pub kept :
      (c : C) (now now' : ℕ) (k j : Text)
      → size c < 30000
      → service.held c now' j ≡ true
      → service.held (service.add c now k) now' j ≡ true
  pub nothing : (now : ℕ) (k : Text) → service.held empty now k ≡ false
  pub only :
      (c : C) (now now' : ℕ) (k j : Text)
      → service.held (service.add c now k) now' j ≡ true
      → (service.held c now' j ≡ true) ⊎ ((k ≡ j) × (now' ≤ now + 30))
