-- ===== src/Web/Samples.antt =====
-- Runs of the handlers, and their theorems at concrete requests.
use cardingest.Base.{ℕ, ◌*◌, true, none, some, [], ◌∷◌, ◌++◌, ◌≡◌, refl, ok, err, list_eq, nat_eq}
use cardingest.Base.Int.{pos}
use cardingest.Base.Maps.{lookup, insert, remove}
use cardingest.Base.Strings.{codes, join_path, dir, base}
use cardingest.Card.{SlotName, DeviceInfo, Time}
use cardingest.Config.Store.Samples.{disk, yaml, fresh, disk-IsReliable}
use cardingest.Config.Store.{parse_file, save, marshal_policy}
use cardingest.Rules.{Glob}
use cardingest.Rules.Size.{Float}
use cardingest.Rules.Compile.{compile}
use cardingest.Detect.{slot_occupied}
use cardingest.Detect.Mock.{MockDetector, mock_insert, content_of}
use cardingest.Web.{
  Server, DevAnswer, accepted_202, conflict_409, dev_insert, dev_remove, put_policy, stored,
}
use cardingest.Web.Policy.{Tells, put_policy-Tells}
use cardingest.Web.Dev.{came, left, dev_remove-dev_insert}

abbrev pub any_glob : Glob
any_glob = record { validate = λ g. true; match = λ g path. ok true }

abbrev pub no_float : Float
no_float = record {
  F = ℕ;
  parse = λ s. err s;
  of_int = λ n. n;
  times = λ x y. x * y;
  to_int64 = pos;
}

put_run :
    (put_policy disk yaml any_glob no_float fresh (codes "rules: []")).0
    ≡ stored (codes "rules: []")
unfolding put_policy parse_file save marshal_policy compile dir lookup insert remove list_eq nat_eq
put_run = refl

put_policy-Tells_example :
    Tells disk yaml any_glob no_float fresh
      (codes "rules: []")
      (put_policy disk yaml any_glob no_float fresh (codes "rules: []"))
put_policy-Tells_example =
    put_policy-Tells disk yaml any_glob no_float fresh (codes "rules: []") disk-IsReliable

abbrev noon : Time
noon = record { year = 2026; month = 3; day = 7; nanos = 0 }

abbrev reader : MockDetector
reader = record { fixture_dir = codes "cards"; present = []; sent = []; watching = true }

abbrev server : Server disk yaml
server = record { mock = some reader; jobs = none; config = some fresh; statuses = none }

inserted : DevAnswer × Server disk yaml
unfolding dev_insert mock_insert content_of join_path lookup insert list_eq nat_eq base
inserted = dev_insert disk yaml server (some (codes "A", none)) noon

dev_run :
    dev_insert disk yaml server (some (codes "A", none)) noon
    ≡ (accepted_202 (codes "A"), inserted.1)
unfolding inserted
dev_run = refl

dev_remove-dev_insert_example :
    (dev_insert disk yaml inserted.1 (some (codes "A", none)) noon
      ≡ (conflict_409 (slot_occupied (codes "A")), inserted.1))
    × ((m n : MockDetector) × (dev : DeviceInfo) × (r : Server disk yaml) × (server.mock ≡ some m)
        × (lookup (codes "A") m.present ≡ none)
        × (dev_remove disk yaml inserted.1 (some (codes "A")) noon ≡ (accepted_202 (codes "A"), r))
        × (r.mock ≡ some n)
        × ((k : SlotName) → lookup k n.present ≡ lookup k m.present)
        × (n.sent ≡ m.sent ++ came (codes "A") dev noon ∷ left (codes "A") dev noon ∷ []))
dev_remove-dev_insert_example =
    dev_remove-dev_insert disk yaml server inserted.1 (codes "A") (codes "A") none noon noon dev_run
