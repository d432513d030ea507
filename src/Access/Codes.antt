-- ===== src/Access/Codes.antt =====
-- apps/api/src/lib/enrolment-codes.ts: the one-time code. A text is a list of code points; `upper` is
-- `toUpperCase` of one of them.
pub mod RoundTrip
use homeparentcontrol.Prelude.{
  ℕ, ◌+◌, ◌*◌, ◌-◌, ◌%◌, ◌≤◌, Bool, true, false, ◌&&◌, ◌||◌, not, List, [], ◌∷◌, ◌++◌, Option, none,
  some, map, leb, ◌==◌, if◌then◌else◌, filter, length, take, drop, all, any, flat_map,
}
use homeparentcontrol.Policy.{Text}

-- Crockford's alphabet.
abbrev pub alphabet : Text
alphabet =
    b'0' ∷ b'1' ∷ b'2' ∷ b'3' ∷ b'4' ∷ b'5' ∷ b'6' ∷ b'7' ∷ b'8' ∷ b'9' ∷ b'A' ∷ b'B' ∷ b'C' ∷ b'D'
    ∷ b'E' ∷ b'F' ∷ b'G' ∷ b'H' ∷ b'J' ∷ b'K' ∷ b'M' ∷ b'N' ∷ b'P' ∷ b'Q' ∷ b'R' ∷ b'S' ∷ b'T'
    ∷ b'V' ∷ b'W' ∷ b'X' ∷ b'Y' ∷ b'Z' ∷ []

abbrev pub groups : ℕ
groups = 3

abbrev pub group_len : ℕ
group_len = 4

abbrev pub char_at : Text → ℕ → ℕ
char_at [] i = 0
char_at (c ∷ cs) i = if i == 0 then c else char_at cs (i - 1)

-- `HPC-` and the groups, with a dash between.
abbrev pub display : Text → Text
display cs =
    let group = λ (i : ℕ). take group_len (drop (i * group_len) cs) in
    (b'H' ∷ b'P' ∷ b'C' ∷ b'-' ∷ group 0) ++ ((b'-' ∷ group 1) ++ (b'-' ∷ group 2))

-- From the random bytes, one to a character, by their five low bits.
unfoldable pub generate_enrolment_code : List ℕ → Text
generate_enrolment_code bytes = display (map (λ b. char_at alphabet (b % 32)) bytes)

-- `\s` or a dash.
abbrev pub is_dropped : ℕ → Bool
is_dropped c =
    (leb 9 c && leb c 13)
    || (c == 32)
    || (c == 160)
    || (c == 5760)
    || (leb 8192 c && leb c 8202)
    || (c == 8232)
    || (c == 8233)
    || (c == 8239)
    || (c == 8287)
    || (c == 12288)
    || (c == 65279)
    || (c == b'-')

-- `replace(/^HPC/, "")`.
abbrev pub strip_prefix : Text → Text
strip_prefix (a ∷ b ∷ c ∷ cs) =
    if (a == b'H') && ((b == b'P') && (c == b'C')) then cs else a ∷ b ∷ c ∷ cs
strip_prefix cs = cs

-- The look-alikes.
abbrev pub fold_char : ℕ → ℕ
fold_char c = if (c == b'I') || (c == b'L') then b'1' else if c == b'O' then b'0' else c

-- The class `[0-9A-HJKMNP-TV-Z]`.
abbrev pub is_crockford : ℕ → Bool
is_crockford c =
    (leb b'0' c && leb c b'9')
    || (leb b'A' c && leb c b'H')
    || (c == b'J')
    || (c == b'K')
    || (c == b'M')
    || (c == b'N')
    || (leb b'P' c && leb c b'T')
    || (leb b'V' c && leb c b'Z')

module _ (upper : ℕ → Text) where
  abbrev pub folded : Text → Text
  folded input =
      map fold_char (strip_prefix (filter (λ c. not (is_dropped c)) (flat_map upper input)))

  unfoldable pub normalise_enrolment_code : Text → Option Text
  normalise_enrolment_code input =
      let cs = folded input in
      if not (length cs == groups * group_len)
      then none
      else if all is_crockford cs
      then some (display cs)
      else none

-- Which code it is: its first eight characters.
abbrev pub enrolment_code_hint : Text → Text
enrolment_code_hint normalised = take 8 normalised
