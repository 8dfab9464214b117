-- ===== src/Notify/Pulsar.antt =====
-- The Pulsar backend of internal/notify/pulsar.go. The environment, the JSON encoding and the HTTP
-- client are parameters; a message is ASCII, a character of which is a rune.
pub mod Limits
use cardingest.Base.{
  ℕ, suc, zero, ◌+◌, ◌*◌, ◌/◌, ◌<◌, ◌≤◌, ◌^◌, Bool, true, false, Option, none, some, List, [], ◌∷◌,
  ◌++◌, ◌≡◌, refl, arith, Outcome, ok, err, ◌==◌, list_eq, nat_eq, if◌then◌else◌, length, take,
  drop, leb, ltb, length-take,
}
use cardingest.Base.Int.{ℤ, pos, negsuc, ltb_ℤ, ◌≤ℤ◌}
use cardingest.Base.Maps.{Map}
use cardingest.Base.Strings.{Text, codes, decimal, trim_right_slash, trim_space}
use cardingest.Config.{Notifier}
use cardingest.Notify.{
  Notification, NotifyEvent, NotifyError, event_text, job_start, job_complete, job_error,
  url_required, user_key_required, token_empty,
}

pub record Pulsar : Type 0 where
  pub url : Text
  pub token : Text
  pub user_key : Text
  pub priority : ℤ

-- clampPriority
unfoldable pub clamp_priority : ℤ → ℤ
clamp_priority p = if ltb_ℤ p (negsuc 1) then negsuc 1 else if ltb_ℤ (pos 2) p then pos 2 else p

abbrev pub token_env_of : Text → Text
unfolding list_eq
token_env_of name = if name == [] then codes "NOTIFY_PULSAR_TOKEN" else name

-- newPulsar, with os.Getenv
unfoldable pub new_pulsar : (Text → Text) → Notifier → Outcome NotifyError Pulsar
unfolding clamp_priority trim_right_slash list_eq
new_pulsar getenv c =
    let token = getenv (token_env_of c.token_env) in
    if c.url == []
    then err url_required
    else if c.user_key == []
    then err user_key_required
    else if token == []
    then err (token_empty (token_env_of c.token_env))
    else ok (record {
      url = trim_right_slash c.url ++ codes "/notifications";
      token = token;
      user_key = c.user_key;
      priority = clamp_priority c.priority;
    })

-- clip, for a maximum in runes
unfoldable pub clip : Text → ℕ → Text
clip [] max = codes "(none)"
clip (c ∷ s) max = if leb (length (c ∷ s)) max then c ∷ s else take max (c ∷ s)

unfoldable pub title : Notification → Text
unfolding event_text
title n = codes "cardingest: slot " ++ n.slot ++ b' ' ∷ event_text n.event

-- 1024 to a power, as the loop of humanBytes multiplies its divisor.
unfoldable pub units : ℕ → ℕ
units zero = 1
units (suc e) = 1024 * units e

-- How often the loop of humanBytes divides n. The fuel is a number that is no less.
unfoldable pub unit_exponent : ℕ → ℕ → ℕ
unit_exponent zero n = 0
unit_exponent (suc fuel) n =
    let more = unit_exponent fuel (n / 1024) in if ltb n 1024 then 0 else suc more

abbrev pub unit_letter : ℕ → Text
unit_letter exp = take 1 (drop exp (codes "KMGTPE"))

-- fmt's %d
abbrev pub decimal_ℤ : ℤ → Text
unfolding decimal
decimal_ℤ (pos n) = decimal n
decimal_ℤ (negsuc n) = b'-' ∷ decimal (suc n)

-- humanBytes; `quotient` is fmt's %.1f of the quotient of two numbers as floats.
unfoldable pub human_bytes : (ℕ → ℕ → Text) → ℤ → Text
unfolding unit_exponent units
human_bytes quotient (negsuc n) = decimal_ℤ (negsuc n) ++ codes " B"
human_bytes quotient (pos b) =
    let exp = unit_exponent b (b / 1024) in
    if ltb b 1024
    then decimal_ℤ (pos b) ++ codes " B"
    else quotient b (units (suc exp)) ++ b' ' ∷ unit_letter exp ++ codes "iB"

-- What fmt and time print.
pub record Format : Type 0 where
  pub quotient : ℕ → ℕ → Text
  pub duration : ℤ → Text

abbrev pub message_of : Text → Text
unfolding list_eq
message_of message = if message == [] then codes "(no detail)" else message

unfoldable pub body : Format → Notification → Text
unfolding human_bytes list_eq
body F n = elim n.event [
  | job_complete ↦
      codes "copied "
      ++ decimal_ℤ (pos n.copied)
      ++ codes ", deduped "
      ++ decimal_ℤ (pos n.deduped)
      ++ codes ", skipped "
      ++ decimal_ℤ (pos n.skipped)
      ++ codes ", erased "
      ++ decimal_ℤ (pos n.erased)
      ++ codes " ("
      ++ human_bytes F.quotient n.bytes_copied
      ++ codes ") in "
      ++ F.duration n.duration
  | job_error ↦ if n.err_text == [] then message_of n.message else n.err_text
  | job_start ↦ message_of n.message
]

-- dataMap
unfoldable pub data_map : Notification → Map Text Text
unfolding event_text
data_map n =
    let common = (codes "slot", n.slot) ∷ (codes "event", event_text n.event) ∷ [] in
    elim n.event [
      | job_complete ↦
          common
          ++ (codes "copied", decimal_ℤ (pos n.copied))
            ∷ (codes "deduped", decimal_ℤ (pos n.deduped))
            ∷ (codes "skipped", decimal_ℤ (pos n.skipped))
            ∷ (codes "erased", decimal_ℤ (pos n.erased))
            ∷ (codes "bytes", decimal_ℤ n.bytes_copied)
            ∷ []
      | _ ↦ common
    ]

pub record Payload : Type 0 where
  pub title : Text
  pub body : Text
  pub priority : ℤ
  pub data_fields : Map Text Text
  pub user_or_group_key : Text

abbrev pub max_title : ℕ
max_title = 250

abbrev pub max_body : ℕ
max_body = 1024

unfoldable pub payload_of : Format → Pulsar → Notification → Payload
unfolding clip title body data_map
payload_of F p n = record {
  title = clip (title n) max_title;
  body = clip (body F n) max_body;
  priority = p.priority;
  data_fields = data_map n;
  user_or_group_key = p.user_key;
}

pub data PostError : Type 0 where
  not_sent : Text → PostError
  bad_status : ℕ → Text → PostError

-- The writer's answer: its status and the start of its body, or why there is none.
abbrev pub Post : Type 0
Post = Text → Text → Payload → Outcome Text (ℕ × Text)

abbrev pub answered : Outcome Text (ℕ × Text) → Option PostError
unfolding nat_eq
answered (err cause) = some (not_sent cause)
answered (ok (status, snippet)) =
    if status / 100 == 2 then none else some (bad_status status (trim_space snippet))

-- pulsar.Notify
unfoldable pub deliver : Format → Post → Pulsar → Notification → Option PostError
unfolding payload_of nat_eq trim_space
deliver F post p n = answered (post p.url p.token (payload_of F p n))
