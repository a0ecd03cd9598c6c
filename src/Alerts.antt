-- ===== src/Alerts.antt =====
-- pkg/feishu/feishu.go and pkg/utils/utils.go: alerts to a chat, with an expiring cache that holds back
-- those that repeat. The cache is the LRU of hashicorp, the operations of which are parameters, and so
-- are HMAC, base64 and the POST. The clock is in seconds. An alert has two
-- parts, up to its `Get` and from its `Add` on: the goroutines that call it have other calls between.
pub mod Goroutines
pub mod Suppression
use tcp_gateway.Prelude.{
  ℕ, ◌+◌, Bool, true, false, not, ◌&&◌, ◌||◌, Option, none, some, List, [], ◌∷◌, ◌++◌, ◌==◌,
  if◌then◌else◌,
}
use tcp_gateway.Bytes.{Bytes}
use tcp_gateway.Text.{Text, same, trim_space, decimal}
use tcp_gateway.Interfaces.{Error}
use tcp_gateway.Configs.{NodeInfoConfig}

-- The fields of `Request` and of `Response` that the program sets and reads.
pub record Request : Type 0 where
  pub timestamp : Text
  pub sign : Text
  pub msg_type : Text
  pub text : Text

pub record Response : Type 0 where
  pub code : ℕ
  pub msg : Text

-- What a POST and the reading of its answer come to.
pub data Posted : Type 0 where
  post_failed : Error → Posted
  unreadable : Error → Posted
  no_json : Error → Posted
  responded : Response → Posted

-- The errors that `Alert` returns.
pub data AlertError : Type 0 where
  transport : Error → AlertError
  refused : Text → AlertError

-- What stands outside of the program: the cache over its states C, `held c now key` for a hit of Get
-- and `add` for Add, the hash, and the web hook.
pub record Service (C : Type 0) : Type 0 where
  pub held : C → ℕ → Text → Bool
  pub add : C → ℕ → Text → C
  pub hmac_sha256 : Text → Bytes
  pub encode64 : Bytes → Text
  pub post : Text → Request → Posted

abbrev pub env_label : Text
env_label = b'e' ∷ b'n' ∷ b'v' ∷ b':' ∷ 32 ∷ []

abbrev pub instance_name_label : Text
instance_name_label =
    32 ∷ b'i' ∷ b'n' ∷ b's' ∷ b't' ∷ b'a' ∷ b'n' ∷ b'c' ∷ b'e' ∷ b'_' ∷ b'n' ∷ b'a' ∷ b'm' ∷ b'e'
    ∷ b':' ∷ 32 ∷ []

abbrev pub instance_id_label : Text
instance_id_label =
    32 ∷ b'i' ∷ b'n' ∷ b's' ∷ b't' ∷ b'a' ∷ b'n' ∷ b'c' ∷ b'e' ∷ b'_' ∷ b'i' ∷ b'd' ∷ b':' ∷ 32 ∷ []

abbrev pub local_ip_label : Text
local_ip_label = 32 ∷ b'l' ∷ b'o' ∷ b'c' ∷ b'a' ∷ b'l' ∷ b'_' ∷ b'i' ∷ b'p' ∷ b':' ∷ 32 ∷ []

abbrev pub uid_label : Text
uid_label = 32 ∷ b'u' ∷ b'i' ∷ b'd' ∷ b':' ∷ 32 ∷ []

abbrev pub blank_line : Text
blank_line = 10 ∷ 10 ∷ []

abbrev pub panic_label : Text
panic_label = 10 ∷ 10 ∷ b'g' ∷ b'o' ∷ 32 ∷ b'p' ∷ b'a' ∷ b'n' ∷ b'i' ∷ b'c' ∷ b':' ∷ 32 ∷ []

abbrev pub webhook_url : Text
webhook_url =
    b'h' ∷ b't' ∷ b't' ∷ b'p' ∷ b's' ∷ b':' ∷ b'/' ∷ b'/' ∷ b'o' ∷ b'p' ∷ b'e' ∷ b'n' ∷ b'.' ∷ b'f'
    ∷ b'e' ∷ b'i' ∷ b's' ∷ b'h' ∷ b'u' ∷ b'.' ∷ b'c' ∷ b'n' ∷ b'/' ∷ b'o' ∷ b'p' ∷ b'e' ∷ b'n'
    ∷ b'-' ∷ b'a' ∷ b'p' ∷ b'i' ∷ b's' ∷ b'/' ∷ b'b' ∷ b'o' ∷ b't' ∷ b'/' ∷ b'v' ∷ b'2' ∷ b'/'
    ∷ b'h' ∷ b'o' ∷ b'o' ∷ b'k' ∷ b'/' ∷ b'x' ∷ b'x' ∷ b'x' ∷ b'x' ∷ []

abbrev pub webhook_secret : Text
webhook_secret = b'x' ∷ b'x' ∷ b'x' ∷ b'x' ∷ []

abbrev pub text_type : Text
text_type = b't' ∷ b'e' ∷ b'x' ∷ b't' ∷ []

-- The texts that end an alert at once.
abbrev pub is_blank : Text → Bool
is_blank s = same (trim_space s) []

-- The error of an answer: one of the web hook has a code that is not 0.
abbrev pub answer_error : Posted → Option AlertError
answer_error (post_failed e) = some (transport e)
answer_error (unreadable e) = some (transport e)
answer_error (no_json e) = some (transport e)
answer_error (responded r) = if r.code == 0 then none else some (refused r.msg)

-- The state of the package: its cache, and the requests that were posted, each with its time and the
-- key of its alert, the latest first.
pub record Chat (C : Type 0) : Type 0 where
  pub cache : C
  pub posted : List (ℕ × Text × Request)

module _ {C : Type 0} (service : Service C) where
  -- `genSign`. A hash takes whatever is written to it, so there is no error.
  abbrev pub gen_sign : ℕ → Text → Text
  gen_sign now secret = service.encode64 (service.hmac_sha256 (decimal now ++ (10 ∷ secret)))

  abbrev pub request : ℕ → Text → Text → Request
  request now text secret = record {
    timestamp = decimal now;
    sign = gen_sign now secret;
    msg_type = text_type;
    text = text;
  }

  -- `Alert` up to its Get: whether it goes on.
  unfoldable pub look : ℕ → Text → Text → Text → Text → C → Bool
  look now key text url secret c =
      if is_blank key || (is_blank text || (same url [] || same secret []))
      then false
      else not (service.held c now key)

  -- `Alert` from its Add on.
  unfoldable pub add_and_post : ℕ → Text → Text → Text → Text → Chat C → Chat C × Option AlertError
  add_and_post now key text url secret c =
      let q = request now text secret in
      (
        record { cache = service.add c.cache now key; posted = (now, key, q) ∷ c.posted },
        answer_error (service.post url q),
      )

  -- `Alert`, at the time `now`, where no other call comes between its two parts.
  unfoldable pub alert : ℕ → Text → Text → Text → Text → Chat C → Chat C × Option AlertError
  unfolding look add_and_post
  alert now key text url secret c =
      if look now key text url secret c.cache
      then add_and_post now key text url secret c
      else (c, none)

  -- The text of an alert: the node, and the message behind a label.
  pub full_info : NodeInfoConfig → Text → Text → Text
  full_info n label detail =
      env_label
      ++ (n.env
          ++ (instance_name_label
              ++ (n.instance_name
                  ++ (instance_id_label
                      ++ (n.instance_id
                          ++ (local_ip_label
                              ++ (n.local_ip ++ (uid_label ++ (n.id ++ (label ++ detail))))))))))

  -- The goroutine of `AlertLowFrequency`, which starts none for a blank key; its error is logged only.
  -- The key is trimmed.
  pub alert_low_frequency : ℕ → NodeInfoConfig → Text → Text → Chat C → Chat C
  unfolding full_info
  alert_low_frequency now n key detail c =
      let c' =
        (alert now (trim_space key) (full_info n blank_line detail) webhook_url webhook_secret
          c).0 in
      if same (trim_space key) [] then c else c'

  -- The goroutine of `AlertAuto`, whose key is the message.
  pub alert_auto : ℕ → NodeInfoConfig → Text → Chat C → Chat C
  unfolding full_info
  alert_auto now n detail c =
      (alert now detail (full_info n blank_line detail) webhook_url webhook_secret c).0

  -- `AlertPanic`, which posts before it panics with the message; `stack` is debug.Stack.
  pub alert_panic : ℕ → NodeInfoConfig → Text → Text → Chat C → Chat C × Text
  unfolding full_info
  alert_panic now n detail stack c = (
    (alert now detail (full_info n panic_label (detail ++ (blank_line ++ stack))) webhook_url
        webhook_secret c).0,
    detail,
  )
