-- ===== src/Clock.antt =====
-- Python's `datetime`, as the program uses it: an instant on the wall, in microseconds from the
-- Monday that is 0001-01-01, and a UTC offset where the value is aware. `datetime.utcnow()` is
-- naive and `datetime.now(timezone.utc)` is aware; a clock reading is always an argument.
use tristar.Base.{ℕ, ◌+◌, ◌*◌, ◌/◌, ◌%◌, Bool, Option, none, some, leb, ltb}
use tristar.Outcome.{Result, ok, err}

-- `offset` is the UTC offset plus one day, in microseconds, so that it is never negative.
pub record DateTime : Type 0 where
  pub wall : ℕ
  pub offset : Option ℕ

pub data TypeError : Type 0 where
  naive_and_aware : TypeError

abbrev pub second : ℕ
second = 1_000_000

abbrev pub hour : ℕ
hour = 3600 * second

abbrev day : ℕ
day = 24 * hour

-- The offset of UTC itself.
abbrev pub utc_offset : ℕ
utc_offset = day

abbrev pub naive : ℕ → DateTime
naive t = record { wall = t; offset = none }

abbrev pub utc : ℕ → DateTime
utc t = record { wall = t; offset = some utc_offset }

-- `d.tzinfo is None`
abbrev pub is_naive : DateTime → Bool
is_naive d = elim d.offset [ none ↦ Bool.true | some _ ↦ Bool.false ]

-- `d if d.tzinfo else d.replace(tzinfo=timezone.utc)`
abbrev pub as_utc : DateTime → DateTime
as_utc d = record {
  wall = d.wall;
  offset = elim d.offset [ none ↦ some utc_offset | some o ↦ some o ];
}

-- The instants `wall - offset` compared, each side with the other's offset added.
abbrev compare_by : (ℕ → ℕ → Bool) → ℕ → Option ℕ → ℕ → Option ℕ → Result TypeError Bool
compare_by test a none b none = ok (test a b)
compare_by test a (some x) b (some y) = ok (test (a + y) (b + x))
compare_by test _ _ _ _ = err naive_and_aware

-- `a <= b`; Python raises where one side is naive and the other aware
unfoldable pub le_dt : DateTime → DateTime → Result TypeError Bool
le_dt a b = compare_by leb a.wall a.offset b.wall b.offset

-- `a < b`
unfoldable pub lt_dt : DateTime → DateTime → Result TypeError Bool
lt_dt a b = compare_by ltb a.wall a.offset b.wall b.offset

-- `d.hour`, 0 to 23
unfoldable pub hour_of : DateTime → ℕ
hour_of d = d.wall / hour % 24

-- `d.weekday()`, 0 for Monday
unfoldable pub weekday : DateTime → ℕ
weekday d = d.wall / day % 7
