-- ===== src/Notify/Samples.antt =====
-- Notifications at concrete configurations.
use cardingest.Base.{
  suc, ◌+◌, ◌/◌, ◌<◌, ◌≤◌, ◌^◌, Option, some, List, [], ◌∷◌, ◌≡◌, refl, arith, ok, length, nat_eq,
  list_eq,
}
use cardingest.Base.Int.{ℤ, pos}
use cardingest.Base.Strings.{Text, codes, trim_right_slash, decimal}
use cardingest.Config.{Notifier}
use cardingest.Notify.{Notification, job_complete, notify_all, build, build_from}
use cardingest.Notify.Fan.{answers, notify_all-build}
use cardingest.Notify.Pulsar.{
  Pulsar, Format, new_pulsar, clamp_priority, units, unit_exponent, human_bytes, body,
}
use cardingest.Notify.Pulsar.Limits.{human_bytes_unit}

abbrev notifier : Text → List Text → ℤ → Notifier
notifier type on priority = record {
  type = type;
  url = codes "http://writer/";
  on = on;
  user_key = codes "u";
  priority = priority;
  token_env = [];
}

abbrev done : Notification
done = record {
  event = job_complete;
  slot = codes "1.1";
  message = codes "ingest complete";
  copied = 2;
  deduped = 0;
  skipped = 1;
  erased = 2;
  bytes_copied = pos 5;
  duration = pos 9;
  by_category = [];
  err_text = [];
}

abbrev format : Format
format = record { quotient = λ a b. codes "x"; duration = λ d. codes "9ns" }

getenv : Text → Text
getenv name = codes "secret"

abbrev pulsar : Pulsar
pulsar = record {
  url = codes "http://writer/notifications";
  token = codes "secret";
  user_key = codes "u";
  priority = pos 2;
}

pulsar_run : new_pulsar getenv (notifier (codes "pulsar") [] (pos 5)) ≡ ok pulsar
unfolding new_pulsar getenv clamp_priority trim_right_slash list_eq nat_eq
pulsar_run = refl

body_run : body format done ≡ codes "copied 2, deduped 0, skipped 1, erased 2 (5 B) in 9ns"
unfolding body human_bytes unit_exponent units decimal
body_run = refl

human_bytes_unit_example :
    let exp = unit_exponent 5000000 (5000000 / 1024) in
    (units (suc exp) ≤ 5000000)
    × (5000000 < units (suc (suc exp)))
    × (exp < 6)
    × (units (suc exp) < 2 ^ 63)
human_bytes_unit_example = human_bytes_unit 5000000 (omega arith) (omega arith)

deliver : Pulsar → Notification → Option Text
deliver p n = some (codes "down")

abbrev mailer : Notifier
mailer = notifier (codes "smtp") [] (pos 0)

abbrev pager : Notifier
pager = notifier (codes " Pulsar") (codes "Complete" ∷ []) (pos 0)

notify_all-build_example :
    (notify_all deliver (build (new_pulsar getenv) (mailer ∷ pager ∷ [])).0 done
      ≡ answers (new_pulsar getenv) deliver done (mailer ∷ pager ∷ []))
    × (length (build_from (new_pulsar getenv) 0 (mailer ∷ pager ∷ [])).0
          + length (build (new_pulsar getenv) (mailer ∷ pager ∷ [])).1
        ≡ length (mailer ∷ pager ∷ []))
notify_all-build_example = notify_all-build (new_pulsar getenv) deliver done mailer (pager ∷ [])
