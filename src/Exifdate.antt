-- ===== src/Exifdate.antt =====
-- The scan of an MP4 file for its creation time, in internal/exifdate/mp4.go. The file is what
-- `ReadAt` delivers.
pub mod Progress
pub mod Dates
mod Samples
use cardingest.Base.{
  ℕ, zero, suc, ◌+◌, ◌*◌, ◌%◌, ◌^◌, Bool, true, false, Option, none, some, List, [], ◌∷◌, ◌==◌,
  nat_eq, list_eq, if◌then◌else◌, take, drop,
}
use cardingest.Base.Int.{ℤ, pos, negsuc, ◌+ℤ◌, ◌-ℤ◌, ltb_ℤ, leb_ℤ, int64}
use cardingest.Base.Strings.{Text, codes}

-- A file: so many bytes from an offset, or none where they are not all there.
pub record ReaderAt : Type 0 where
  pub read_at : ℤ → ℕ → Option (List ℕ)

-- binary.BigEndian.Uint32 and Uint64
unfoldable pub big_endian : ℕ → List ℕ → ℕ
big_endian n [] = n
big_endian n (b ∷ bytes) = big_endian (n * 256 + b) bytes

-- The start of the payload and the end of the atom.
abbrev pub Found : Type 0
Found = Option (ℤ × ℤ)

-- A round of the loop ends it, or goes on at another offset.
pub data Next : Type 0 where
  stop : Found → Next
  on : ℤ → Next

module _ (r : ReaderAt) where
  -- Past an atom of that size, a positive int64: it is malformed, the one wanted, or passed over.
  unfoldable pub past : ℤ → Text → Text → ℤ → ℤ → Next
  unfolding int64 ◌+ℤ◌ list_eq
  past off typ want size header_len =
      if ltb_ℤ size header_len
      then stop none
      else if typ == want
      then stop (some (int64 (off +ℤ header_len), int64 (off +ℤ size)))
      else on (int64 (off +ℤ size))

  abbrev pub extended : ℤ → Text → Text → Option (List ℕ) → Next
  extended off typ want none = stop none
  extended off typ want (some ext) = past off typ want (int64 (pos (big_endian 0 ext))) (pos 16)

  abbrev pub with_header : ℤ → ℤ → Text → Option (List ℕ) → Next
  with_header off end want none = stop none
  with_header off end want (some hdr) =
      let size = big_endian 0 (take 4 hdr) % 2 ^ 32 in
      let typ = drop 4 hdr in
      if size == 1
      then extended off typ want (r.read_at (int64 (off +ℤ pos 8)) 8)
      else past off typ want (if size == 0 then int64 (end -ℤ off) else pos size) (pos 8)

  unfoldable pub round : ℤ → ℤ → Text → Next
  unfolding past big_endian int64 ◌+ℤ◌ ◌-ℤ◌ nat_eq
  round off end want =
      if leb_ℤ (int64 (off +ℤ pos 8)) end
      then with_header off end want (r.read_at off 8)
      else stop none

  -- The loop of findAtom; `none` where the fuel is used up.
  unfoldable pub find_from : ℕ → ℤ → ℤ → Text → Option Found
  unfolding round
  find_from zero off end want = none
  find_from (suc fuel) off end want = elim (round off end want) [
    | stop found ↦ some found
    | on off' ↦ find_from fuel off' end want
  ]
