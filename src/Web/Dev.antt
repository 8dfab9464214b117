-- ===== src/Web/Dev.antt =====
-- DevInsert and DevRemove of internal/web/web.go: the simulated reader behind the API.
use cardingest.Base.{
  false, Option, none, some, [], ◌∷◌, ◌++◌, ◌≡◌, refl, sym, ap, ◌∙◌, >>=-eq-ok, arith, Outcome, ok,
  err, ◌==◌, list_eq, nat_eq, Bool-cases, inl, inr,
}
use mathlib.Core.List.{append_assoc}
use cardingest.Base.Maps.{lookup, insert, remove, lookup-insert, lookup-remove}
use cardingest.Base.Strings.{Text}
use cardingest.Card.{SlotName, DeviceInfo, Time}
use cardingest.Detect.{
  Event, Snapshot, inserted, removed, DetectError, slot_occupied, slot_empty, already_watching,
  no_fixture_dir,
}
use cardingest.Detect.Mock.{
  MockDetector, mock_insert, mock_remove, put, put_into, content_of, mock_device,
}
use cardingest.Config.Store.{Disk, Yaml}
use cardingest.Web.{
  Server, DevAnswer, accepted_202, bad_request_400, conflict_409, dev_insert, dev_remove, insert_by,
  remove_by, inserted_as, or_empty_dir,
}

-- The event of a card that came into the slot, or left it.
abbrev pub came : SlotName → DeviceInfo → Time → Event
came slot dev now = record { type = inserted; slot = slot; device = dev; at = now }

abbrev pub left : SlotName → DeviceInfo → Time → Event
left slot dev now = record { type = removed; slot = slot; device = dev; at = now }

put_into-eq-ok :
    (m m' : MockDetector) (slot : SlotName) (now : Time) (dir : Text) (held : Option DeviceInfo)
    → put_into m slot now dir held ≡ ok m'
    → (held ≡ none) × (m' ≡ put m slot now (mock_device slot dir))
put_into-eq-ok m m' slot now dir (some dev) h = cc
put_into-eq-ok m m' slot now dir none h = (refl, cc)

lookup-insert_same :
    (slot : SlotName) (dev : DeviceInfo) (present : Snapshot)
    → lookup slot (insert slot dev present) ≡ some dev
lookup-insert_same slot dev present = lookup-insert slot slot dev present ∙ ground arith

put-again :
    (m : MockDetector) (slot : SlotName) (dir d : Text) (now later : Time) (dev : DeviceInfo)
    → content_of m slot dir ≡ ok d
    → mock_insert (put m slot now dev) slot dir later ≡ err (slot_occupied slot)
unfolding mock_insert content_of
put-again m slot dir d now later dev h = rw (h, lookup-insert_same slot dev m.present) refl

-- The reader after the removal of a card that was just put in.
abbrev taken : MockDetector → SlotName → Time → Time → DeviceInfo → MockDetector
taken m slot now later dev = record m {
  present = remove slot (insert slot dev m.present);
  sent = (m.sent ++ came slot dev now ∷ []) ++ left slot dev later ∷ [];
}

put-mock_remove :
    (m : MockDetector) (slot : SlotName) (now later : Time) (dev : DeviceInfo)
    → mock_remove (put m slot now dev) slot later ≡ ok (taken m slot now later dev)
unfolding mock_remove
put-mock_remove m slot now later dev = rw (lookup-insert_same slot dev m.present) refl

lookup-remove-insert :
    (m : MockDetector) (slot k : SlotName) (dev : DeviceInfo)
    → lookup slot m.present ≡ none
    → lookup k (remove slot (insert slot dev m.present)) ≡ lookup k m.present
lookup-remove-insert m slot k dev h =
    rw (lookup-remove k slot (insert slot dev m.present), lookup-insert k slot dev m.present)
      (ground arith)

module _ (D : Disk) (Y : Yaml) where
  abbrev holding : Server D Y → MockDetector → Server D Y
  holding s m = record s { mock = some m }

  inserted_as-eq-202 :
      (s t : Server D Y) (slot at : SlotName) (r : Outcome DetectError MockDetector)
      → inserted_as D Y s slot r ≡ (accepted_202 at, t)
      → (m' : MockDetector) × (r ≡ ok m') × (t ≡ holding s m')
  inserted_as-eq-202 s t slot at (ok m) h = (m, refl, sym (ap (λ x. x.1) h))
  inserted_as-eq-202 s t slot at (err (slot_occupied k)) h = cc
  inserted_as-eq-202 s t slot at (err (slot_empty k)) h = cc
  inserted_as-eq-202 s t slot at (err already_watching) h = cc
  inserted_as-eq-202 s t slot at (err no_fixture_dir) h = cc

  insert_by-eq-202 :
      (s t : Server D Y) (slot at : SlotName) (dir : Option Text) (now : Time)
      (o : Option MockDetector)
      → insert_by D Y s (some (slot, dir)) now o ≡ (accepted_202 at, t)
      → (m m' : MockDetector) × (o ≡ some m)
        × ((slot == []) ≡ false)
        × (mock_insert m slot (or_empty_dir D Y dir) now ≡ ok m')
        × (t ≡ holding s m')
  insert_by-eq-202 s t slot at dir now none h = cc
  insert_by-eq-202 s t slot at dir now (some m) h = elim (Bool-cases (slot == [])) [
    | inl e ↦ absurd (accepted-ne-bad (rw e at h))
    | inr e ↦
        let (m', p, q) = inserted_as-eq-202 s t slot at _ (rw e at h) in (m, m', refl, e, p, q)
  ]
    where
      accepted-ne-bad :
          ¬ ◌≡◌ {A = DevAnswer × Server D Y} (bad_request_400 none, s) (accepted_202 at, t)
      accepted-ne-bad h = cc

  insert_by-put :
      (t : Server D Y) (o : Option MockDetector) (m : MockDetector) (slot : SlotName)
      (dir : Option Text) (d : Text) (now later : Time) (dev : DeviceInfo)
      → o ≡ some (put m slot now dev)
      → ((slot == []) ≡ false)
      → content_of m slot (or_empty_dir D Y dir) ≡ ok d
      → insert_by D Y t (some (slot, dir)) later o ≡ (conflict_409 (slot_occupied slot), t)
  insert_by-put t o m slot dir d now later dev held e c =
      rw (held, e, put-again m slot (or_empty_dir D Y dir) d now later dev c) refl

  remove_by-put :
      (t : Server D Y) (o : Option MockDetector) (m : MockDetector) (slot : SlotName)
      (now later : Time) (dev : DeviceInfo)
      → o ≡ some (put m slot now dev)
      → ((slot == []) ≡ false)
      → remove_by D Y t (some slot) later o
        ≡ (accepted_202 slot, holding t (taken m slot now later dev))
  remove_by-put t o m slot now later dev held e =
      rw (held, e, put-mock_remove m slot now later dev) refl

  -- If DevInsert answers 202, the slot of the reader was empty. The same request is then a conflict,
  -- which changes nothing, and DevRemove of the slot answers 202 and leaves each slot of the reader
  -- as it was, with the two events sent in their order, of the same card.
  pub dev_remove-dev_insert :
      (s t : Server D Y) (slot at : SlotName) (dir : Option Text) (now later : Time)
      → dev_insert D Y s (some (slot, dir)) now ≡ (accepted_202 at, t)
      → (dev_insert D Y t (some (slot, dir)) later ≡ (conflict_409 (slot_occupied slot), t))
        × ((m n : MockDetector) × (dev : DeviceInfo) × (r : Server D Y) × (s.mock ≡ some m)
            × (lookup slot m.present ≡ none)
            × (dev_remove D Y t (some slot) later ≡ (accepted_202 slot, r))
            × (r.mock ≡ some n)
            × ((k : SlotName) → lookup k n.present ≡ lookup k m.present)
            × (n.sent ≡ m.sent ++ came slot dev now ∷ left slot dev later ∷ []))
  unfolding dev_insert dev_remove
  dev_remove-dev_insert s t slot at dir now later h =
      let (m, m', m_here, e, p, q) = insert_by-eq-202 s t slot at dir now s.mock h in
      let (d, c, i) = >>=-eq-ok (content_of m slot (or_empty_dir D Y dir)) _ p in
      let (empty, put_in) = put_into-eq-ok m m' slot now d (lookup slot m.present) i in
      let dev = mock_device slot d in
      let held = ap (λ x. x.mock) q ∙ ap some put_in in
      (
        insert_by-put t t.mock m slot dir d now later dev held e c,
        (
          m,
          taken m slot now later dev,
          dev,
          holding t (taken m slot now later dev),
          m_here,
          empty,
          remove_by-put t t.mock m slot now later dev held e,
          refl,
          (λ k. lookup-remove-insert m slot k dev empty),
          append_assoc m.sent _ _,
        ),
      )
