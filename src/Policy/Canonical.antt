-- ===== src/Policy/Canonical.antt =====
-- apps/api/src/policy/canonical.ts: ids made from what produced them, and ETags.
-- `createHash("sha256")` of node:crypto is a parameter: a function from texts to bytes.
use Prim.Native.Nat.{bit_and, bit_or}
use homeparentcontrol.Prelude.{
  ℕ, zero, suc, ◌+◌, ◌-◌, ◌/◌, ◌%◌, List, [], ◌∷◌, ◌++◌, ltb, if◌then◌else◌, take, drop,
}
use homeparentcontrol.Policy.{Text, codes}

-- `parts.join(separator)`.
unfoldable pub join : ℕ → List Text → Text
join sep [] = []
join sep (p ∷ []) = p
join sep (p ∷ q ∷ ps) = p ++ (sep ∷ join sep (q ∷ ps))

-- A write at an index of the digest.
abbrev pub update_at : ℕ → (ℕ → ℕ) → Text → Text
update_at i f [] = []
update_at zero f (x ∷ xs) = f x ∷ xs
update_at (suc i) f (x ∷ xs) = x ∷ update_at i f xs

abbrev pub hex_digit : ℕ → ℕ
hex_digit n = if ltb n 10 then b'0' + n else b'a' + (n - 10)

unfoldable pub hex : Text → Text
hex [] = []
hex (b ∷ bs) = hex_digit (b / 16) ∷ hex_digit (b % 16) ∷ hex bs

unfoldable pub slice : ℕ → ℕ → Text → Text
slice from to xs = take (to - from) (drop from xs)

-- The version nibble 8, and the variant bits 10.
abbrev pub version_8 : ℕ → ℕ
version_8 b = bit_or (bit_and b 0x0f) 0x80

abbrev pub variant_10 : ℕ → ℕ
variant_10 b = bit_or (bit_and b 0x3f) 0x80

module _ (sha256 : Text → Text) where
  unfoldable pub deterministic_uuid : List Text → Text
  unfolding join hex slice
  deterministic_uuid parts =
      let h = update_at 8 variant_10 (update_at 6 version_8 (sha256 (join 0 parts))) in
      let text = hex (take 16 h) in
      join b'-' (
        slice 0 8 text
        ∷ slice 8 12 text
        ∷ slice 12 16 text
        ∷ slice 16 20 text
        ∷ slice 20 32 text
        ∷ [])

-- The decimal digits of a number; `fuel` above it is enough.
unfoldable pub digits_of : ℕ → ℕ → Text
digits_of zero n = []
digits_of (suc fuel) n =
    let rest = digits_of fuel (n / 10) in
    if ltb n 10 then (b'0' + n) ∷ [] else rest ++ ((b'0' + n % 10) ∷ [])

-- W/"pol-<hash12>-v<version>"
unfoldable pub etag_for : Text → ℕ → Text
unfolding digits_of
etag_for hash version =
    codes "W/\"pol-"
    ++ (take 12 hash ++ (codes "-v" ++ (digits_of (suc version) version ++ codes "\"")))
