-- ===== src/Exifdate/Progress.antt =====
-- The loop of `findAtom` in internal/exifdate/mp4.go ends.
use cardingest.Base.{
  ℕ, zero, suc, ◌+◌, ◌%◌, ◌^◌, ◌≤◌, ◌<◌, ◌≡◌, refl, sym, arith, Bool, true, false, Option, none,
  some, List, ◌==◌, nat_eq, list_eq, if◌then◌else◌, take, drop, Bool-cases, inl, inr,
}
use cardingest.Base.Int.{ℤ, pos, negsuc, ◌+ℤ◌, ◌-ℤ◌, ltb_ℤ, leb_ℤ, int64}
use cardingest.Base.Strings.{Text}
use cardingest.Exifdate.{
  ReaderAt, big_endian, Found, Next, stop, on, past, extended, with_header, round, find_from,
}

-- A file of fewer than 2 ^ 63 bytes: nothing is read before its start or past its end.
pub record IsFile (r : ReaderAt) (size : ℕ) : Type 0 where
  pub small : size < 2 ^ 63
  pub before : (n k : ℕ) → r.read_at (negsuc n) k ≡ none
  pub within : (o k : ℕ) {b : List ℕ} → r.read_at (pos o) k ≡ some b → o + k ≤ size

abbrev pub IsInt64 : ℤ → Type 0
IsInt64 (pos n) = n < 2 ^ 63
IsInt64 (negsuc n) = Unit

pub int64-IsInt64 : (z : ℤ) → IsInt64 (int64 z)
unfolding int64
int64-IsInt64 z = ground arith

-- The fuel that is enough from an offset on.
abbrev Enough : ℕ → ℕ → ℤ → Type 0
Enough size fuel (pos o) = (1 ≤ fuel) × (size < fuel + o)
Enough size fuel (negsuc n) = 1 ≤ fuel

advance :
    (o sz size fuel : ℕ)
    → 8 ≤ sz
    → sz < 2 ^ 63
    → o + 8 ≤ size
    → size < 2 ^ 63
    → size < suc fuel + o
    → Enough size fuel (int64 (pos o +ℤ pos sz))
unfolding int64 ◌+ℤ◌
advance o sz size fuel a b c d e = ground arith

on-injective : {a b : ℤ} → on a ≡ on b → a ≡ b
on-injective h = cc

-- An atom that is passed over has at least eight bytes.
abbrev Passed : ℤ → ℤ → Type 0
Passed off off' = (sz : ℕ) × (8 ≤ sz) × (sz < 2 ^ 63) × (off' ≡ int64 (off +ℤ pos sz))

module _ (r : ReaderAt) where
  past-on :
      (off off' : ℤ) (typ want : Text) (size : ℤ) (h : ℕ)
      → IsInt64 size
      → 8 ≤ h
      → past r off typ want size (pos h) ≡ on off'
      → Passed off off'
  unfolding past
  past-on off off' typ want (negsuc n) h b l p = absurd (ground arith)
  past-on off off' typ want (pos sz) h b l p = elim (Bool-cases (ltb_ℤ (pos sz) (pos h))) [
    | inl q ↦ absurd (ground arith)
    | inr q ↦ elim (Bool-cases (typ == want)) [
      | inl k ↦ absurd (ground arith)
      | inr k ↦ (sz, ground arith, b, sym (on-injective (rw (q, k) at p)))
    ]
  ]

  extended-on :
      (off off' : ℤ) (typ want : Text) (ext : Option (List ℕ))
      → extended r off typ want ext ≡ on off'
      → Passed off off'
  extended-on off off' typ want none p = cc
  extended-on off off' typ want (some ext) p =
      past-on off off' typ want (int64 (pos (big_endian 0 ext))) 16 (int64-IsInt64 _) (omega arith)
        p

  with_header-on :
      (off off' end : ℤ) (want : Text) (hdr : Option (List ℕ))
      → with_header r off end want hdr ≡ on off'
      → Passed off off'
  with_header-on off off' end want none p = cc
  with_header-on off off' end want (some hdr) p =
      go (big_endian 0 (take 4 hdr) % 2 ^ 32 == 1) (big_endian 0 (take 4 hdr) % 2 ^ 32 == 0) p
    where
      go :
          (one whole : Bool)
          → (if one
              then extended r off (drop 4 hdr) want (r.read_at (int64 (off +ℤ pos 8)) 8)
              else past r off
                  (drop 4 hdr)
                  want
                  (if whole then int64 (end -ℤ off) else pos (big_endian 0 (take 4 hdr) % 2 ^ 32))
                  (pos 8))
            ≡ on off'
          → Passed off off'
      go true whole p = extended-on off off' (drop 4 hdr) want _ p
      go false true p = past-on off off' (drop 4 hdr) want _ 8 (int64-IsInt64 _) (omega arith) p
      go false false p =
          past-on off off' (drop 4 hdr) want (pos (big_endian 0 (take 4 hdr) % 2 ^ 32)) 8
            (omega arith) (omega arith) p

module _ (r : ReaderAt) (size : ℕ) (file : IsFile r size) where
  -- A round that goes on has read a header within the file, and passed over an atom.
  round-on :
      (off off' end : ℤ) (want : Text)
      → round r off end want ≡ on off'
      → (o : ℕ) × (off ≡ pos o) × (o + 8 ≤ size) × Passed off off'
  unfolding round
  round-on off off' end want p = go off (leb_ℤ (int64 (off +ℤ pos 8)) end) (r.read_at off 8) refl p
    where
      go :
          (off : ℤ) (inside : Bool) (hdr : Option (List ℕ))
          → r.read_at off 8 ≡ hdr
          → (if inside then with_header r off end want hdr else stop none) ≡ on off'
          → (o : ℕ) × (off ≡ pos o) × (o + 8 ≤ size) × Passed off off'
      go off false hdr q p = absurd (ground arith)
      go off true none q p = absurd (ground arith)
      go (negsuc n) true (some hdr) q p = absurd (ground (arith, file.before n 8))
      go (pos o) true (some hdr) q p =
          (o, refl, file.within o 8 q, with_header-on r (pos o) off' end want (some hdr) p)

  next-Enough :
      (fuel : ℕ) (off off' end : ℤ) (want : Text)
      → round r off end want ≡ on off'
      → Enough size (suc fuel) off
      → Enough size fuel off'
  next-Enough fuel off off' end want p e =
      let (o, here, inside, (sz, large, small, moved)) = round-on off off' end want p in
      rw moved (rw here (advance o sz size fuel large small inside file.small (rw here at e).1))

  find_from-Enough :
      (fuel : ℕ) (off end : ℤ) (want : Text)
      → Enough size fuel off
      → (found : Found) × (find_from r fuel off end want ≡ some found)
  unfolding find_from
  find_from-Enough zero (pos o) end want e = absurd (omega arith)
  find_from-Enough zero (negsuc n) end want e = absurd (omega arith)
  find_from-Enough (suc fuel) off end want e =
      go (round r off end want)
        (λ off' p. find_from-Enough fuel off' end want (next-Enough fuel off off' end want p e))
    where
      go :
          (next : Next)
          → ((off' : ℤ)
              → next ≡ on off'
              → (found : Found) × (find_from r fuel off' end want ≡ some found))
          → (found : Found) × (elim next [
            | stop found ↦ some found
            | on off' ↦ find_from r fuel off' end want
          ]
              ≡ some found)
      go (stop found) k = (found, refl)
      go (on off') k = k off' refl

  -- Let a file have fewer than 2 ^ 63 bytes, with nothing to be read before its start or past its
  -- end. Wherever the loop of findAtom starts, and whatever the file holds, it ends with a result
  -- within as many rounds as the file has bytes and one more.
  pub find_from_total :
      (off end : ℤ) (want : Text)
      → (found : Found) × (find_from r (size + 1) off end want ≡ some found)
  find_from_total (pos o) end want =
      find_from-Enough (size + 1) (pos o) end want (omega arith, omega arith)
  find_from_total (negsuc n) end want =
      find_from-Enough (size + 1) (negsuc n) end want (omega arith)
