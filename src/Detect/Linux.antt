-- ===== src/Detect/Linux.antt =====
-- The enumeration of internal/detect/detect_linux.go and internal/detect/bypath.go. The file system
-- of the kernel and strconv.ParseUint are parameters.
pub mod Allowed
use cardingest.Base.{
  ℕ, zero, suc, ◌*◌, ◌%◌, ◌^◌, Bool, true, false, not, ◌||◌, Option, none, some, List, [], ◌∷◌,
  ◌++◌, ◌≡◌, refl, arith, Outcome, ok, err,
}
use cardingest.Base.{◌==◌, contains, list_eq, nat_eq, if◌then◌else◌, All, map, Bool-cases, inl, inr}
use cardingest.Base.Maps.{lookup, insert, NodupKeys, insert-NodupKeys}
use cardingest.Base.Strings.{
  Text, codes, cut, before_byte, split, join_path, dir, base, to_lower, trim_space, contains_text,
}
use cardingest.Card.{SlotName, DeviceInfo}
use cardingest.Detect.{Snapshot, Config}

-- os.ReadDir, whose error says that the directory is not there, or another one;
-- filepath.EvalSymlinks and os.ReadFile, whose errors the code only tells from success.
pub record Sysfs : Type 0 where
  pub read_dir : Text → Outcome (Option Text) (List Text)
  pub eval_symlinks : Text → Option Text
  pub read_file : Text → Option Text
  pub parse_uint : Text → Option ℕ

-- The second of the parts, if there is one.
abbrev second_or : Text → List Text → Text
second_or rest (first ∷ second ∷ parts) = second
second_or rest parts = rest

-- usbPortFromByPath
unfoldable pub usb_port_from_by_path : Text → Text
unfolding cut before_byte split
usb_port_from_by_path name = elim (cut name (codes "usb-")) [
  | none ↦ codes "unknown"
  | some (_, rest) ↦ let port = before_byte b'-' rest in second_or port (split b':' port)
]

pub record LinuxEnum : Type 0 where
  pub allow : List Text
  pub by_path_dir : Text
  pub sys_block_dir : Text

-- newReal
unfoldable pub new_real : Config → LinuxEnum
unfolding to_lower trim_space
new_real cfg = record {
  allow = map (λ id. to_lower (trim_space id)) cfg.usb_ids;
  by_path_dir = codes "/dev/disk/by-path";
  sys_block_dir = codes "/sys/class/block";
}

pub record UsbAttrs : Type 0 where
  pub vid : Text
  pub pid : Text
  pub serial : Text
  pub size : ℕ

abbrev pub trimmed : Option Text → Option Text
trimmed none = none
trimmed (some b) = some (trim_space b)

abbrev pub or_empty : Option Text → Text
or_empty none = []
or_empty (some s) = s

module _ (S : Sysfs) where
  -- readTrimmed
  unfoldable pub read_trimmed : Text → Option Text
  unfolding trim_space
  read_trimmed path = trimmed (S.read_file path)

  -- mustReadTrimmed
  unfoldable pub must_read_trimmed : Text → Text
  unfolding read_trimmed
  must_read_trimmed path = or_empty (read_trimmed path)

  -- The nearest directory above that has an idVendor, at most `n` levels up.
  unfoldable pub owner : ℕ → Text → Option (Text × Text)
  unfolding read_trimmed dir join_path
  owner zero d = none
  owner (suc n) d =
      let up = dir d in
      let above = owner n up in
      elim (read_trimmed (join_path up (codes "idVendor"))) [ none ↦ above | some v ↦ some (up, v) ]

  -- The size in bytes, a uint64, of the sectors that sysfs counts.
  unfoldable pub size_of : Text → ℕ
  unfolding read_trimmed join_path
  size_of sys_block = elim (read_trimmed (join_path sys_block (codes "size"))) [
    | none ↦ 0
    | some s ↦ elim (S.parse_uint s) [ none ↦ 0 | some sectors ↦ (sectors * 512) % 2 ^ 64 ]
  ]

  -- readUSBAttrs; none is its error.
  unfoldable pub read_usb_attrs : LinuxEnum → Text → Option UsbAttrs
  unfolding owner must_read_trimmed size_of join_path to_lower list_eq
  read_usb_attrs e name =
      let sys_block = join_path e.sys_block_dir name in
      elim (S.eval_symlinks sys_block) [
        | none ↦ none
        | some dev ↦ elim (owner 12 dev) [
          | none ↦ none
          | some (up, v) ↦
              if to_lower v == []
              then none
              else some (record {
                vid = to_lower v;
                pid = to_lower (must_read_trimmed (join_path up (codes "idProduct")));
                serial = must_read_trimmed (join_path up (codes "serial"));
                size = size_of sys_block;
              })
        ]
      ]

  -- What an entry of the directory adds: a device that is allowed and not empty.
  unfoldable pub admit : LinuxEnum → Text → Text → UsbAttrs → Snapshot → Snapshot
  unfolding usb_port_from_by_path insert list_eq nat_eq
  admit e name dev attrs out =
      if not (contains e.allow (attrs.vid ++ b':' ∷ attrs.pid))
      then out
      else if attrs.size == 0
      then out
      else insert (usb_port_from_by_path name)
          (record {
            dev_path = dev;
            by_path = join_path e.by_path_dir name;
            serial = attrs.serial;
            vendor_id = attrs.vid;
            product_id = attrs.pid;
            size_bytes = attrs.size;
          })
          out

  unfoldable pub one_entry : LinuxEnum → Text → Snapshot → Snapshot
  unfolding admit contains_text join_path read_usb_attrs base
  one_entry e name out =
      if not (contains_text name (codes "usb")) || contains_text name (codes "-part")
      then out
      else elim (S.eval_symlinks (join_path e.by_path_dir name)) [
        | none ↦ out
        | some dev ↦ elim (read_usb_attrs e (base dev)) [
          | none ↦ out
          | some attrs ↦ admit e name dev attrs out
        ]
      ]

  unfoldable pub entries_from : LinuxEnum → List Text → Snapshot → Snapshot
  unfolding one_entry
  entries_from e [] out = out
  entries_from e (name ∷ names) out = entries_from e names (one_entry e name out)

  -- enumerate
  unfoldable pub enumerate : LinuxEnum → Outcome Text Snapshot
  unfolding entries_from
  enumerate e = elim (S.read_dir e.by_path_dir) [
    | err none ↦ ok []
    | err (some cause) ↦ err cause
    | ok names ↦ ok (entries_from e names [])
  ]
