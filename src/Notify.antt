-- ===== src/Notify.antt =====
-- The notifications of internal/notify/notify.go: fan-out, event filters and the construction of the
-- configured notifiers. A backend is what answers a notification with an error or none.
pub mod Pulsar
pub mod Fan
mod Samples
use cardingest.Base.{
  ℕ, ◌+◌, Bool, true, false, not, ◌&&◌, Option, none, some, List, [], ◌∷◌, ◌++◌, map, Outcome, ok,
  err, ◌==◌, contains, list_eq, nat_eq, if◌then◌else◌,
}
use cardingest.Base.Int.{ℤ}
use cardingest.Base.Maps.{Map}
use cardingest.Base.Strings.{Text, codes, to_lower, trim_space}
use cardingest.Config.{Notifier}

-- EventType is a string; these are the values that the program gives it.
pub data NotifyEvent : Type 0 where
  job_start job_complete job_error : NotifyEvent

unfoldable pub event_text : NotifyEvent → Text
event_text job_start = codes "start"
event_text job_complete = codes "complete"
event_text job_error = codes "error"

pub record Notification : Type 0 where
  pub event : NotifyEvent
  pub slot : Text
  pub message : Text
  pub copied : ℕ
  pub deduped : ℕ
  pub skipped : ℕ
  pub erased : ℕ
  pub bytes_copied : ℤ
  pub duration : ℤ
  pub by_category : Map Text ℕ
  pub err_text : Text

-- The notifiers of the package, over the backends of type `B`. The zero of `Notifier` is not one.
pub data Sender {ℓ} (B : Type ℓ) : Type ℓ where
  noop logger : Sender B
  backend : B → Sender B
  filtered : B → List Text → Sender B

abbrev pub collect : Option Text → List Text → List Text
collect none errs = errs
collect (some e) errs = e ∷ errs

module _ {ℓ} {B : Type ℓ} (deliver : B → Notification → Option Text) where
  -- filtered.Notify and those of the backends, Noop and Logger
  unfoldable pub notify : Sender B → Notification → Option Text
  unfolding list_eq event_text
  notify noop n = none
  notify logger n = none
  notify (backend b) n = deliver b n
  notify (filtered b []) n = deliver b n
  notify (filtered b (e ∷ events)) n =
      if not (contains (e ∷ events) (event_text n.event)) then none else deliver b n

  -- Multi.Notify: every notifier is called, and the errors are joined.
  unfoldable pub notify_all : List (Sender B) → Notification → List Text
  unfolding notify
  notify_all [] n = []
  notify_all (s ∷ senders) n = collect (notify s n) (notify_all senders n)

-- withEvents
unfoldable pub with_events {ℓ} : {B : Type ℓ} → B → List Text → Sender B
unfolding to_lower trim_space
with_events b [] = backend b
with_events b (e ∷ on) = filtered b (map (λ e. to_lower (trim_space e)) (e ∷ on))

pub data NotifyError : Type 0 where
  url_required user_key_required unknown_type : NotifyError
  token_empty : Text → NotifyError

-- The index and the type of a notifier that is not built, with the error.
abbrev pub BuildError : Type 0
BuildError = ℕ × Text × NotifyError

abbrev pub or_noop {ℓ} : {B : Type ℓ} → List (Sender B) → List (Sender B)
or_noop [] = noop ∷ []
or_noop (s ∷ senders) = s ∷ senders

module _ {ℓ} {B : Type ℓ} (new_pulsar : Notifier → Outcome NotifyError B) where
  -- construct
  unfoldable pub construct : Notifier → Outcome NotifyError B
  unfolding to_lower trim_space list_eq
  construct c =
      if to_lower (trim_space c.type) == codes "pulsar" then new_pulsar c else err unknown_type

  abbrev pub built :
      ℕ
      → Notifier
      → Outcome NotifyError B
      → List (Sender B) × List BuildError
      → List (Sender B) × List BuildError
  built i c (ok b) (ns, errs) = (with_events b c.on ∷ ns, errs)
  built i c (err e) (ns, errs) = (ns, (i, c.type, e) ∷ errs)

  -- The loop of Build from notifier i on.
  unfoldable pub build_from : ℕ → List Notifier → List (Sender B) × List BuildError
  unfolding construct with_events
  build_from i [] = ([], [])
  build_from i (c ∷ cfgs) = built i c (construct c) (build_from (i + 1) cfgs)

  -- Build
  unfoldable pub build : List Notifier → List (Sender B) × List BuildError
  unfolding build_from
  build [] = (logger ∷ [], [])
  build (c ∷ cfgs) = let (ns, errs) = build_from 0 (c ∷ cfgs) in (or_noop ns, errs)
