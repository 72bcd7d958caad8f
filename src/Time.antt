-- ===== src/Time.antt =====
-- The part of Python's `datetime` that spinach uses. Times are in microseconds since the epoch, not
-- before it, and no time is too late for a `datetime`; a `datetime` is naive (its wall clock only) or
-- aware (the instant, and a zone that is only carried along).
pub mod Timestamp
use spinach.Prelude.{
  ℕ, ℤ, sub_ℕ, zero, suc, ◌+◌, ◌*◌, ◌-◌, ◌/◌, ◌%◌, ◌^◌, Bool, ◌&&◌, ◌||◌, ◌==◌, String, leb, ltb,
  if◌then◌else◌,
}
use spinach.Outcome.{Result, ok, raise, type_error, value_error}

pub data Zone : Type 0 where
  utc : Zone
  other : String → Zone

pub data DateTime : Type 0 where
  naive : ℕ → DateTime
  aware : ℕ → Zone → DateTime

abbrev pub second : ℕ
second = 1_000_000

-- `at.replace(tzinfo=timezone.utc)` for a naive time, `at.astimezone(timezone.utc)` for an aware one.
unfoldable pub to_utc : DateTime → DateTime
to_utc (naive wall) = aware wall utc
to_utc (aware instant zone) = aware instant utc

-- The instant that a time denotes; the local zone of the process is UTC.
unfoldable pub instant : DateTime → ℕ
instant (naive wall) = wall
instant (aware i zone) = i

-- `datetime.now(timezone.utc) >= at`; the two kinds do not compare.
unfoldable pub now_reaches : ℕ → DateTime → Result Bool
now_reaches now (naive wall) = raise type_error
now_reaches now (aware at zone) = ok (leb at now)

-- `at - datetime.now(timezone.utc)`, in microseconds.
unfoldable pub until : ℕ → DateTime → Result ℤ
until now (naive wall) = raise type_error
until now (aware at zone) = ok (sub_ℕ at now)

-- `datetime.fromtimestamp(seconds, tz=timezone.utc).replace(microsecond=us)`
unfoldable pub from_parts : ℕ → ℕ → Result DateTime
from_parts seconds us =
    if leb second us then raise value_error else ok (aware (seconds * second + us) utc)

-- The largest `e` up to a bound with `2 ^ e` at most `n`.
unfoldable pub exponent : ℕ → ℕ → ℕ
exponent zero n = 0
exponent (suc e) n = let smaller = exponent e n in if leb (2 ^ suc e) n then suc e else smaller

-- `a / b` to the nearest whole number, a tie to the even one.
unfoldable pub nearest : ℕ → ℕ → ℕ
nearest a b =
    let q = a / b in
    let twice = 2 * (a % b) in if ltb b twice || (twice == b && q % 2 == 1) then q + 1 else q

-- `int(at.timestamp())`: the quotient of the microseconds by a million is a float of 53 binary digits,
-- and its fraction is cut off. Seconds up to `2 ^ 53` are the times here.
unfoldable pub int_timestamp : ℕ → ℕ
unfolding exponent nearest
int_timestamp us =
    let scale = 2 ^ (52 - exponent 52 (us / second)) in nearest (us * scale) second / scale

-- `int(math.ceil(at.timestamp()))`, of the same float.
unfoldable pub ceil_timestamp : ℕ → ℕ
unfolding exponent nearest
ceil_timestamp us =
    let scale = 2 ^ (52 - exponent 52 (us / second)) in
    (nearest (us * scale) second + (scale - 1)) / scale
