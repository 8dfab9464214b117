-- ===== src/Detect/Linux/Allowed.antt =====
-- What `enumerate` of internal/detect/detect_linux.go lets through.
use cardingest.Base.{
  true, false, Option, none, some, List, [], ◌∷◌, ◌++◌, ◌≡◌, ◌≢◌, refl, arith, Outcome, ok, err,
}
use cardingest.Base.{
  ◌==◌, contains, list_eq, nat_eq, All, ok-injective, Bool-cases, inl, inr, eq_false,
}
use cardingest.Base.Maps.{insert, NodupKeys, insert-NodupKeys}
use cardingest.Base.Strings.{Text, codes, join_path, base, contains_text}
use cardingest.Card.{SlotName, DeviceInfo}
use cardingest.Detect.{Snapshot}
use cardingest.Detect.Linux.{
  Sysfs, LinuxEnum, UsbAttrs, usb_port_from_by_path, admit, one_entry, entries_from, enumerate,
  read_usb_attrs,
}

-- A whole disk behind a reader of the allowlist, with a medium in it, at the slot of its port.
abbrev pub IsAllowed : LinuxEnum → SlotName × DeviceInfo → Type 0
IsAllowed e (slot, dev) =
    (contains e.allow (dev.vendor_id ++ b':' ∷ dev.product_id) ≡ true)
    × (dev.size_bytes ≢ 0)
    × ((name : Text) × (dev.by_path ≡ join_path e.by_path_dir name)
        × (slot ≡ usb_port_from_by_path name)
        × (contains_text name (codes "usb") ≡ true)
        × (contains_text name (codes "-part") ≡ false))

All-insert {ℓ} :
    (P : SlotName × DeviceInfo → Type ℓ) (k : SlotName) (d : DeviceInfo) (m : Snapshot)
    → P (k, d)
    → All P m
    → All P (insert k d m)
unfolding insert
All-insert P k d [] p h = (p, tt)
All-insert P k d ((j, w) ∷ m) p h = ground (arith, All-insert P k d m p h.1)

module _ (S : Sysfs) (e : LinuxEnum) where
  abbrev IsGood : Snapshot → Type 0
  IsGood out = NodupKeys out × All (IsAllowed e) out

  admit-IsGood :
      (name dev : Text) (attrs : UsbAttrs) (out : Snapshot)
      → contains_text name (codes "usb") ≡ true
      → contains_text name (codes "-part") ≡ false
      → IsGood out
      → IsGood (admit S e name dev attrs out)
  unfolding admit
  admit-IsGood name dev attrs out usb whole (nodup, h) =
      elim (Bool-cases (contains e.allow (attrs.vid ++ b':' ∷ attrs.pid))) [
        | inr p ↦ rw p (nodup, h)
        | inl p ↦ elim (Bool-cases (attrs.size == 0)) [
          | inl q ↦ rw (p, q) (nodup, h)
          | inr q ↦
              let filled = eq_false attrs.size 0 q in
              rw (p, q)
                (
                  insert-NodupKeys (usb_port_from_by_path name) _ out nodup,
                  All-insert (IsAllowed e) (usb_port_from_by_path name) _ out
                      (p, filled, (name, refl, refl, usb, whole)) h,
                )
        ]
      ]

  with_attrs-IsGood :
      (name dev : Text) (attrs : Option UsbAttrs) (out : Snapshot)
      → contains_text name (codes "usb") ≡ true
      → contains_text name (codes "-part") ≡ false
      → IsGood out
      → IsGood (elim attrs [ none ↦ out | some attrs ↦ admit S e name dev attrs out ])
  with_attrs-IsGood name dev none out usb whole h = h
  with_attrs-IsGood name dev (some attrs) out usb whole h =
      admit-IsGood name dev attrs out usb whole h

  one_entry-IsGood : (name : Text) (out : Snapshot) → IsGood out → IsGood (one_entry S e name out)
  unfolding one_entry
  one_entry-IsGood name out h = elim (Bool-cases (contains_text name (codes "usb"))) [
    | inr p ↦ rw p h
    | inl p ↦ elim (Bool-cases (contains_text name (codes "-part"))) [
      | inl q ↦ rw (p, q) h
      | inr q ↦ rw (p, q) (resolved (S.eval_symlinks (join_path e.by_path_dir name)) p q)
    ]
  ]
    where
      resolved :
          (link : Option Text)
          → contains_text name (codes "usb") ≡ true
          → contains_text name (codes "-part") ≡ false
          → IsGood (elim link [
            | none ↦ out
            | some dev ↦ elim (read_usb_attrs S e (base dev)) [
              | none ↦ out
              | some attrs ↦ admit S e name dev attrs out
            ]
          ])
      resolved none p q = h
      resolved (some dev) p q = with_attrs-IsGood name dev (read_usb_attrs S e (base dev)) out p q h

  entries_from-IsGood :
      (names : List Text) (out : Snapshot) → IsGood out → IsGood (entries_from S e names out)
  unfolding entries_from
  entries_from-IsGood [] out h = h
  entries_from-IsGood (name ∷ names) out h =
      entries_from-IsGood names (one_entry S e name out) (one_entry-IsGood name out h)

  -- Every device that `enumerate` reports is in the allowlist, holds a medium, and is a whole disk,
  -- reported under the port that its by-path name gives; and no port is reported twice.
  pub enumerate-IsAllowed :
      (snap : Snapshot) → enumerate S e ≡ ok snap → NodupKeys snap × All (IsAllowed e) snap
  unfolding enumerate
  enumerate-IsAllowed snap h = go (S.read_dir e.by_path_dir) h
    where
      go :
          (r : Outcome (Option Text) (List Text))
          → elim r [
            | err none ↦ ok []
            | err (some cause) ↦ err cause
            | ok names ↦ ok (entries_from S e names [])
          ]
            ≡ ok snap
          → NodupKeys snap × All (IsAllowed e) snap
      go (err none) h = rw (← ok-injective h) (tt, tt)
      go (err (some cause)) h = cc
      go (ok names) h = rw (← ok-injective h) (entries_from-IsGood names [] (tt, tt))
