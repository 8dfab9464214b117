-- ===== src/Notify/Fan.antt =====
-- What the notifiers that `Build` makes of internal/notify/notify.go pass on.
use cardingest.Base.{
  ℕ, suc, ◌+◌, Bool, true, false, Option, none, List, [], ◌∷◌, map, ◌≡◌, refl, arith, Outcome, ok,
  err, contains, list_eq, nat_eq, if◌then◌else◌, length,
}
use cardingest.Base.Strings.{Text, to_lower, trim_space}
use cardingest.Config.{Notifier}
use cardingest.Notify.{
  Notification, NotifyError, Sender, notify, notify_all, with_events, construct, built, build_from,
  build, event_text, collect, or_noop,
}

-- A notification passes an event list that is empty or lists its event, up to case and spaces.
abbrev pub passes : List Text → Notification → Bool
passes [] n = true
passes (e ∷ on) n = contains (map (λ e. to_lower (trim_space e)) (e ∷ on)) (event_text n.event)

module _ {ℓ} {B : Type ℓ} (new_pulsar : Notifier → Outcome NotifyError B) where
  notify-with_events :
      (deliver : B → Notification → Option Text) (b : B) (on : List Text) (n : Notification)
      → notify deliver (with_events b on) n ≡ (if passes on n then deliver b n else none)
  unfolding notify with_events
  notify-with_events deliver b [] n = refl
  notify-with_events deliver b (e ∷ on) n = ground arith

  -- What the configured notifiers answer, by the configuration alone.
  abbrev pub answer :
      (B → Notification → Option Text) → Notification → Notifier → List Text → List Text
  answer deliver n c errs = elim (construct new_pulsar c) [
    | err e ↦ errs
    | ok b ↦ if passes c.on n then collect (deliver b n) errs else errs
  ]

  abbrev pub answers : (B → Notification → Option Text) → Notification → List Notifier → List Text
  answers deliver n [] = []
  answers deliver n (c ∷ cfgs) = answer deliver n c (answers deliver n cfgs)

  collect_if :
      (p : Bool) (r : Option Text) (errs : List Text)
      → collect (if p then r else none) errs ≡ (if p then collect r errs else errs)
  collect_if true r errs = refl
  collect_if false r errs = refl

  notify_all-build_from :
      (deliver : B → Notification → Option Text) (n : Notification) (i : ℕ) (cfgs : List Notifier)
      → (notify_all deliver (build_from new_pulsar i cfgs).0 n ≡ answers deliver n cfgs)
        × (length (build_from new_pulsar i cfgs).0 + length (build_from new_pulsar i cfgs).1
            ≡ length cfgs)
  unfolding build_from notify_all
  notify_all-build_from deliver n i [] = (refl, refl)
  notify_all-build_from deliver n i (c ∷ cfgs) =
      go (construct new_pulsar c) (notify_all-build_from deliver n (i + 1) cfgs)
    where
      go :
          (r : Outcome NotifyError B)
          → (notify_all deliver (build_from new_pulsar (i + 1) cfgs).0 n ≡ answers deliver n cfgs)
            × (length (build_from new_pulsar (i + 1) cfgs).0
                  + length (build_from new_pulsar (i + 1) cfgs).1
                ≡ length cfgs)
          → (notify_all deliver (built new_pulsar i c r (build_from new_pulsar (i + 1) cfgs)).0 n
              ≡ elim r [
                | err e ↦ answers deliver n cfgs
                | ok b ↦
                    if passes c.on n
                    then collect (deliver b n) (answers deliver n cfgs)
                    else answers deliver n cfgs
              ])
            × (length (built new_pulsar i c r (build_from new_pulsar (i + 1) cfgs)).0
                  + length (built new_pulsar i c r (build_from new_pulsar (i + 1) cfgs)).1
                ≡ suc (length cfgs))
      go (err e) (same, counted) = (same, omega (arith, counted))
      go (ok b) (same, counted) = (
        rw (notify-with_events deliver b c.on n, same) (collect_if (passes c.on n) _ _),
        omega (arith, counted),
      )

  -- A notification goes to every configured notifier that can be built and whose event list it
  -- passes, in their order, whatever the others answer and however many cannot be built; and each of
  -- the configured notifiers is built or has an error.
  pub notify_all-build :
      (deliver : B → Notification → Option Text) (n : Notification) (c : Notifier)
      (cfgs : List Notifier)
      → (notify_all deliver (build new_pulsar (c ∷ cfgs)).0 n ≡ answers deliver n (c ∷ cfgs))
        × (length (build_from new_pulsar 0 (c ∷ cfgs)).0 + length (build new_pulsar (c ∷ cfgs)).1
            ≡ length (c ∷ cfgs))
  unfolding build notify_all notify
  notify_all-build deliver n c cfgs =
      let (same, counted) = notify_all-build_from deliver n 0 (c ∷ cfgs) in
      (spare (build_from new_pulsar 0 (c ∷ cfgs)).0 same, counted)
    where
      spare :
          (senders : List (Sender B)) {answered : List Text}
          → notify_all deliver senders n ≡ answered
          → notify_all deliver (or_noop senders) n ≡ answered
      spare [] h = h
      spare (s ∷ senders) h = h
