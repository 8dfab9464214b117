-- ===== src/Appliance/Samples.antt =====
-- A start with the simulated reader, after a policy was put.
use cardingest.Base.{err, none, [], ◌≡◌, refl, ok, list_eq, nat_eq}
use cardingest.Base.Int.{pos}
use cardingest.Base.Maps.{lookup, insert, remove}
use cardingest.Base.Strings.{Text, codes, dir}
use cardingest.Config.Boot.{BootConfig}
use cardingest.Config.Store.Samples.{disk, path, yaml, fresh, disk-IsReliable}
use cardingest.Config.Store.{PolicyStore, parse_file, save, marshal_policy}
use cardingest.Rules.Compile.{compile}
use cardingest.Store.{open_sqlite}
use cardingest.Exifdate.Dates.{Media}
use cardingest.Web.{PutAnswer, put_policy, stored}
use cardingest.Web.Samples.{any_glob, no_float}
use cardingest.Appliance.{Host, Appliance, run}
use cardingest.Appliance.Restart.{WorksBy, run-put_policy}

abbrev no_media : Media
no_media = record {
  open_media = λ p. none;
  decode = λ f. err (codes "no EXIF");
  after_1904 = λ z. record { year = 1904; month = 1; day = 1; nanos = 0 };
}

abbrev host : Host
host = record {
  init_telemetry = none;
  open_sqlite = λ p. ok open_sqlite;
  getenv = λ name. [];
  media = λ fs. no_media;
  glob = any_glob;
  float = no_float;
}

abbrev config : BootConfig
config = record {
  reader_mode = codes "mock";
  mock_fixture_dir = codes "cards";
  config_path = path;
  state_path = codes "/data/state.db";
  mount_root = codes "/mnt";
  poll_interval = pos 0;
}

abbrev text : Text
text = codes "rules: []"

put : PutAnswer × PolicyStore disk yaml
unfolding put_policy parse_file save marshal_policy compile dir lookup insert remove list_eq nat_eq
put = put_policy disk yaml any_glob no_float fresh text

put_well : put_policy disk yaml any_glob no_float fresh text ≡ (stored text, put.1)
unfolding put
put_well = refl

reads :
    (written : Text) → yaml.marshal put.1.file ≡ ok written → yaml.unmarshal written ≡ ok put.1.file
unfolding put
reads written h = refl

run-put_policy_example :
    (a : Appliance disk yaml) × (run disk yaml host config put.1.disk ≡ ok a)
    × (yaml.unmarshal text ≡ ok put.1.file)
    × WorksBy disk yaml host put.1 a
run-put_policy_example =
    run-put_policy disk yaml host config fresh put.1 text text open_sqlite disk-IsReliable refl
      reads refl refl put_well
