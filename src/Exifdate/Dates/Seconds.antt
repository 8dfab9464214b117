-- ===== src/Exifdate/Dates/Seconds.antt =====
-- The seconds of an MP4 header as a date, in internal/exifdate/mp4.go.
use cardingest.Base.{ℕ, ◌*◌, ◌^◌, ◌≤◌, ◌<◌, ◌≡◌, ◌↔◌, arith}
use cardingest.Base.Int.{ℤ, pos, ◌*ℤ◌, int64_pos}
use cardingest.Exifdate.Dates.{duration_of}
use cardingest.Exifdate.Progress.{IsInt64, int64-IsInt64}

times_pos : (a b : ℕ) → pos a *ℤ pos b ≡ pos (a * b)
unfolding ◌*ℤ◌
times_pos a b = ground arith

pos-bounded : (z : ℤ) (n : ℕ) → IsInt64 z → z ≡ pos n → n < 2 ^ 63
pos-bounded z n h e = rw e at h

-- For any 64 bits of seconds, the duration that is added to the start of 1904 is that many seconds
-- exactly if there are at most 9223372036 of them.
pub duration_of_exact_iff :
    (secs : ℕ) → secs < 2 ^ 64 → (duration_of secs ≡ pos (secs * 10 ^ 9)) ↔ (secs ≤ 9223372036)
unfolding duration_of
duration_of_exact_iff secs wide = (forth, back)
  where
    forth : duration_of secs ≡ pos (secs * 10 ^ 9) → secs ≤ 9223372036
    forth e =
        let small = pos-bounded (duration_of secs) (secs * 10 ^ 9) (int64-IsInt64 _) e in
        omega (arith, small)

    back : secs ≤ 9223372036 → duration_of secs ≡ pos (secs * 10 ^ 9)
    back h =
        rw (int64_pos secs (omega arith), times_pos secs (10 ^ 9))
          (int64_pos (secs * 10 ^ 9) (omega arith))
