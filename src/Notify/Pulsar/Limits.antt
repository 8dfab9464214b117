-- ===== src/Notify/Pulsar/Limits.antt =====
-- The limits that a payload of internal/notify/pulsar.go keeps, and the unit of a size.
use cardingest.Base.{
  ℕ, suc, zero, ◌*◌, ◌/◌, ◌<◌, ◌≤◌, ◌^◌, false, [], ◌∷◌, ◌≡◌, arith, list_eq, nat_eq, length, ltb,
  length-take, Bool-cases, inl, inr, ltb→lt,
}
use native.Mathlib.Decide.{dec_lt}
use cardingest.Base.Strings.{Text}
use cardingest.Notify.{Notification}
use cardingest.Notify.Pulsar.{
  Pulsar, Format, clip, units, unit_exponent, title, body, payload_of, max_title, max_body,
}

length-clip : (s : Text) (max : ℕ) → 6 ≤ max → length (clip s max) ≤ max
unfolding clip
length-clip [] max h = h
length-clip (c ∷ s) max h = ground (arith, length-take max (c ∷ s))

-- Whatever the notification, the title of the payload has at most 250 characters and its body at
-- most 1024.
payload_of_limits :
    (F : Format) (p : Pulsar) (n : Notification)
    → (length (payload_of F p n).title ≤ 250) × (length (payload_of F p n).body ≤ 1024)
unfolding payload_of
payload_of_limits F p n =
    (length-clip (title n) max_title (omega arith), length-clip (body F n) max_body (omega arith))

-- The unit found by the loop is the greatest that is no greater than the number.
unit_exponent_bounds :
    (fuel n : ℕ)
    → n ≤ fuel
    → 1 ≤ n
    → (units (unit_exponent fuel n) ≤ n) × (n < 1024 * units (unit_exponent fuel n))
unfolding unit_exponent units
unit_exponent_bounds zero n h k = absurd (omega arith)
unit_exponent_bounds (suc fuel) n h k = elim (Bool-cases (ltb n 1024)) [
  | inl p ↦ rw p (omega arith, omega (arith, ltb→lt n 1024 p))
  | inr p ↦
      let large = not-ltb n 1024 p in
      let ih = unit_exponent_bounds fuel (n / 1024) (omega arith) (omega arith) in
      rw p (omega (arith, ih.0), omega (arith, ih.1))
]
  where
    not-ltb : (a b : ℕ) → ltb a b ≡ false → b ≤ a
    not-ltb a b h = ground arith

units_pos : (e : ℕ) → 1 ≤ units e
unfolding units
units_pos zero = omega arith
units_pos (suc e) = omega (arith, units_pos e)

units_large : (e : ℕ) → 6 ≤ e → 2 ^ 60 ≤ units e
unfolding units
units_large (suc (suc (suc (suc (suc (suc e)))))) h = omega (arith, units_pos e)
units_large e h = absurd (omega arith)

few_units : (e : ℕ) → units e < 2 ^ 60 → e < 6
few_units e h = elim (dec_lt e 6) [
  | yes p ↦ p
  | no q ↦ absurd (omega (arith, h, units_large e (omega (arith, q))))
]

-- For every size from 1024 bytes up to the greatest int64, the loop of `humanBytes` finds the
-- greatest unit that is no greater than the size; its letter is one of the six, and the divisor does
-- not overflow.
pub human_bytes_unit :
    (b : ℕ)
    → 1024 ≤ b
    → b < 2 ^ 63
    → let exp = unit_exponent b (b / 1024) in
      (units (suc exp) ≤ b) × (b < units (suc (suc exp))) × (exp < 6) × (units (suc exp) < 2 ^ 63)
unfolding units
human_bytes_unit b h k =
    let (low, high) = unit_exponent_bounds b (b / 1024) (omega arith) (omega arith) in
    (
      omega (arith, low),
      omega (arith, high),
      few_units (unit_exponent b (b / 1024)) (omega (arith, low)),
      omega (arith, low),
    )
