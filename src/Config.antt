-- ===== src/Config.antt =====
-- The policy document of internal/config/file.go.
pub mod Store
pub mod Boot
use cardingest.Base.{Bool, List, Option}
use cardingest.Base.Int.{ℤ}
use cardingest.Base.Maps.{Map}
use cardingest.Base.Strings.{Text}

pub record RuleMatch : Type 0 where
  pub ext : List Text
  pub path_glob : Text
  pub max_size : Text
  pub min_size : Text

pub record Rule : Type 0 where
  pub name : Text
  pub match : Option RuleMatch
  pub action : Text
  pub default : Text

pub record Destination : Type 0 where
  pub path : Text
  pub layout : Text
  pub date_source : Text

pub record CardPolicy : Type 0 where
  pub erase_ingested : Bool
  pub erase_skipped : Bool
  pub eject_when_done : Bool

pub record Reader : Type 0 where
  pub usb_ids : List Text

pub record Notifier : Type 0 where
  pub type : Text
  pub url : Text
  pub on : List Text
  pub user_key : Text
  pub priority : ℤ
  pub token_env : Text

pub record File : Type 0 where
  pub destination : Destination
  pub categories : Map Text (List Text)
  pub rules : List Rule
  pub card : CardPolicy
  pub reader : Reader
  pub notify : List Notifier
