-- ===== src/Go/Int64.antt =====
-- Go's `int`, `int64` and `time.Duration`: an integer that is wrapped into 64 bits after each
-- operation. `time.Time` is an integer of nanoseconds with no bound, of which `Sub` saturates.
use orders_go.Common.{
  ℕ, ◌-◌, ◌+◌, ◌*◌, ◌<◌, ◌/◌, ◌%◌, ◌^◌, ◌≤◌, ◌≡◌, refl, arith, ltb, if◌then◌else◌,
}
use orders_go.Common.Int.{ℤ, pos, negsuc, ◌+ℤ◌, ◌-ℤ◌, ◌*ℤ◌, ◌≤ℤ◌, ltb_ℤ}

abbrev pub Duration : Type 0
Duration = ℤ

abbrev pub Time : Type 0
Time = ℤ

-- The bit pattern of an integer, and the integer of a bit pattern.
abbrev pub word_of : ℤ → ℕ
word_of (pos n) = n % 2 ^ 64
word_of (negsuc n) = 2 ^ 64 - 1 - n % 2 ^ 64

abbrev pub signed_of : ℕ → ℤ
signed_of w = if ltb w (2 ^ 63) then pos w else negsuc (2 ^ 64 - 1 - w)

unfoldable pub wrap64 : ℤ → ℤ
wrap64 z = signed_of (word_of z)

abbrev pub max_int64 : ℤ
max_int64 = pos (2 ^ 63 - 1)

abbrev pub min_int64 : ℤ
min_int64 = negsuc (2 ^ 63 - 1)

abbrev pub IsInt64 : ℤ → Type 0
IsInt64 z = (min_int64 ≤ℤ z) × (z ≤ℤ max_int64)

unfoldable pub add64 : ℤ → ℤ → ℤ
add64 a b = wrap64 (a +ℤ b)

unfoldable pub sub64 : ℤ → ℤ → ℤ
sub64 a b = wrap64 (a -ℤ b)

unfoldable pub mul64 : ℤ → ℤ → ℤ
mul64 a b = wrap64 (a *ℤ b)

-- `d << k`
unfoldable pub shl64 : ℤ → ℕ → ℤ
shl64 d k = wrap64 (d *ℤ pos (2 ^ k))

-- Go's `/` truncates towards zero. The program divides by numbers it has found positive.
unfoldable pub div64 : ℤ → ℤ → ℤ
div64 (pos a) (pos b) = pos (a / b)
div64 (pos a) (negsuc b) = pos 0 -ℤ pos (a / (b + 1))
div64 (negsuc a) (pos b) = pos 0 -ℤ pos ((a + 1) / b)
div64 (negsuc a) (negsuc b) = wrap64 (pos ((a + 1) / (b + 1)))

-- `t.Sub(u)`, which saturates, and `t.Add(d)`.
unfoldable pub time_sub : Time → Time → Duration
time_sub t u =
    let d = t -ℤ u in
    if ltb_ℤ max_int64 d then max_int64 else if ltb_ℤ d min_int64 then min_int64 else d

unfoldable pub time_add : Time → Duration → Time
time_add t d = t +ℤ d

pub wrap64_id : (z : ℤ) → IsInt64 z → wrap64 z ≡ z
unfolding wrap64
wrap64_id z h = ground arith

pub wrap64_pos : (n : ℕ) → n ≤ 2 ^ 63 - 1 → wrap64 (pos n) ≡ pos n
unfolding wrap64
wrap64_pos n h = ground arith

pub wrap64-IsInt64 : (z : ℤ) → IsInt64 (wrap64 z)
unfolding wrap64
wrap64-IsInt64 z = ground arith

-- On numbers above zero with a result that fits, each operation is the plain one.
pub add64_pos : (a b : ℕ) → a + b < 2 ^ 63 → add64 (pos a) (pos b) ≡ pos (a + b)
unfolding add64 wrap64 ◌+ℤ◌
add64_pos a b h = ground arith

pub sub64_pos : (a b : ℕ) → b ≤ a → a < 2 ^ 63 → sub64 (pos a) (pos b) ≡ pos (a - b)
unfolding sub64 wrap64 ◌-ℤ◌
sub64_pos a b h k = ground arith

pub mul64_pos : (a b : ℕ) → a * b < 2 ^ 63 → mul64 (pos a) (pos b) ≡ pos (a * b)
unfolding mul64 wrap64 ◌*ℤ◌
mul64_pos a b h = ground arith

pub time_sub_pos : (t u : ℕ) → u ≤ t → t - u < 2 ^ 63 → time_sub (pos t) (pos u) ≡ pos (t - u)
unfolding time_sub ◌-ℤ◌
time_sub_pos t u h k = ground arith

pub time_add_pos : (t d : ℕ) → time_add (pos t) (pos d) ≡ pos (t + d)
unfolding time_add ◌+ℤ◌
time_add_pos t d = ground arith

pub shl64_pos : (a k : ℕ) → shl64 (pos a) k ≡ signed_of ((a * 2 ^ k) % 2 ^ 64)
unfolding shl64 wrap64 ◌*ℤ◌
shl64_pos a k = ground arith

wrap64_overflow : wrap64 (pos (2 ^ 63)) ≡ min_int64
unfolding wrap64
wrap64_overflow = refl
