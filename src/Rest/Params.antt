-- ===== src/Rest/Params.antt =====
-- What the handlers read from a query string: `getQuery`, `parseLimit`, `parseOffset`,
-- `parseTimeParam`, `encodeCursor` and `decodeCursor` of predsx/services/api/handlers/rest.go.
-- A cursor is its bytes. The readers of RFC 3339 times are parameters.
use pred_sx.Base.{
  ℕ, ◌-◌, append_text, ◌^◌, ◌≤◌, ◌<◌, ◌≡◌, ap, Bool, true, false, Bool-cases, inl, inr, [], ◌∷◌,
  Option, none, some, List, String, arith, ltb, ◌==◌, if◌then◌else◌, is_empty,
}
use pred_sx.Base.Dict.{Dict, lookup}
use pred_sx.Base.Decimal.{itoa}
use pred_sx.Base.Text.{
  codes, Parsed, positive, negative, above, int_max, atoi, atoi-itoa, ranged, magnitude,
  codes-itoa-bytes,
}
use pred_sx.Base.Base64.{encode, decode, decode-encode}

-- `fallback`
unfoldable pub fallback : String → String → String
fallback value def = if is_empty value then def else value

-- A name that is missing or empty reads as the fallback.
unfoldable pub get_query : Dict String → String → String → String
unfolding fallback
get_query query key def = elim (lookup key query) [ none ↦ def | some value ↦ fallback value def ]

abbrev pub clamped : Parsed → ℕ → ℕ → ℕ
clamped (positive val) def most = if val == 0 then def else (if ltb most val then most else val)
clamped _ def most = def

unfoldable pub parse_limit : String → ℕ → ℕ → ℕ
parse_limit raw def most = if is_empty raw then def else clamped (atoi (codes raw)) def most

abbrev pub not_negative : Parsed → ℕ
not_negative (positive val) = val
not_negative _ = 0

unfoldable pub parse_offset : String → ℕ
parse_offset raw = if is_empty raw then 0 else not_negative (atoi (codes raw))

-- A time in seconds or milliseconds since 1970, before 1970, read from a text, or of the clock in
-- nanoseconds.
pub data Instant : Type 0 where
  seconds : ℕ → Instant
  milliseconds : ℕ → Instant
  seconds_before : ℕ → Instant
  read : ℕ → Instant
  clock : ℕ → Instant

abbrev pub of_parsed : Parsed → Option Instant
of_parsed (positive n) = some (if ltb 1_000_000_000_000 n then milliseconds n else seconds n)
of_parsed (negative n) = some (seconds_before n)
of_parsed _ = none

unfoldable pub parse_time_param :
    (String → Option ℕ) → (String → Option ℕ) → String → Option Instant
parse_time_param rfc3339 rfc3339_nano raw =
    if is_empty raw then none else (elim (of_parsed (atoi (codes raw))) [
      | some t ↦ some t
      | none ↦ elim (rfc3339 raw) [
        | some t ↦ some (read t)
        | none ↦ elim (rfc3339_nano raw) [ some t ↦ some (read t) | none ↦ none ]
      ]
    ])

-- `strconv.Itoa` of a 64-bit number with its sign.
unfoldable pub itoa64 : ℕ → String
itoa64 n = if ltb n (2 ^ 63) then itoa n else append_text "-" (itoa (2 ^ 64 - n))

unfoldable pub encode_cursor : ℕ → List ℕ
unfolding itoa64
encode_cursor offset = encode (codes (itoa64 offset))

-- The number that comes with an error of `strconv.Atoi`, too.
abbrev pub number_of : Parsed → ℕ
number_of (positive n) = n
number_of above = int_max
number_of _ = 0

unfoldable pub decode_cursor : List ℕ → ℕ
decode_cursor cursor = elim (decode cursor) [ none ↦ 0 | some bytes ↦ number_of (atoi bytes) ]

-- A cursor made from an offset that an `int` holds is read back as this offset.
pub decode_cursor-encode_cursor :
    (offset : ℕ) → offset < 2 ^ 63 → decode_cursor (encode_cursor offset) ≡ offset
unfolding decode_cursor encode_cursor
decode_cursor-encode_cursor offset h =
    let plain : ltb offset (2 ^ 63) ≡ true = ground arith in
    rw (decode_cursor, plain, decode-encode (codes (itoa offset)) (codes-itoa-bytes offset))
      (ap number_of (atoi-itoa offset h))

-- Whatever the text of a limit, the limit lies between 1 and the most that is allowed, if the
-- default does.
pub parse_limit_bounds :
    (raw : String) (def most : ℕ)
    → 0 < def
    → def ≤ most
    → (0 < parse_limit raw def most) × (parse_limit raw def most ≤ most)
unfolding parse_limit
parse_limit_bounds raw def most h k = ground arith

ranged-small : (minus : Bool) (o : Option ℕ) → not_negative (ranged minus o) < 2 ^ 63
unfolding ranged
ranged-small true none = omega arith
ranged-small false none = omega arith
ranged-small true (some n) = ground arith
ranged-small false (some n) = ground arith

atoi-small : (cs : List ℕ) → not_negative (atoi cs) < 2 ^ 63
unfolding atoi
atoi-small [] = omega arith
atoi-small (c ∷ cs) =
    let minus = ranged-small true (magnitude cs) in
    let plus = ranged-small false (magnitude cs) in
    let plain = ranged-small false (magnitude (c ∷ cs)) in
    elim (Bool-cases (c == 45)) [
      | inl m ↦ rw m minus
      | inr n ↦ rw n (elim (Bool-cases (c == 43)) [ inl m ↦ rw m plus | inr n' ↦ rw n' plain ])
    ]

-- An offset is one that an `int` holds.
pub parse_offset-small : (raw : String) → parse_offset raw < 2 ^ 63
unfolding parse_offset
parse_offset-small raw = ground (arith, atoi-small (codes raw))
