-- ===== src/Bech32/Checksum.antt =====
-- The checksum of address/bech32/bech32.go. A string is the list of its bytes.
use nogocommons.Base.{ℕ, ◌*◌, ◌/◌, ◌%◌, ◌^◌, Option, none, some, List, [], ◌∷◌}
use nogocommons.Base.{◌==◌, if◌then◌else◌, map, take, drop, length, ◌-◌}
use Prim.Native.Nat.{bit_xor}

pub data Version : Type 0 where
  version0 : Version
  version_m : Version

-- `VersionToConsts`
abbrev pub version_const : Version → ℕ
version_const version0 = 1
version_const version_m = 0x2bc830a3

abbrev pub gen : List ℕ
gen = 0x3b6a57b2 ∷ 0x26508e6d ∷ 0x1ea119fa ∷ 0x3d4233dd ∷ 0x2a1462b3 ∷ []

-- The loop over the bits of b.
unfoldable pub mix : ℕ → List ℕ → ℕ → ℕ
mix b [] chk = chk
mix b (g ∷ gs) chk = mix (b / 2) gs (if b % 2 == 1 then bit_xor chk g else chk)

-- One round of `bech32Polymod`, without a value and with one.
unfoldable pub poly_shift : ℕ → ℕ
unfolding mix
poly_shift chk = mix (chk / 2 ^ 25) gen (chk % 2 ^ 25 * 32)

unfoldable pub poly_step : ℕ → ℕ → ℕ
unfolding mix
poly_step chk v = mix (chk / 2 ^ 25) gen (bit_xor (chk % 2 ^ 25 * 32) v)

unfoldable pub poly_all : List ℕ → ℕ → ℕ
unfolding poly_step
poly_all [] chk = chk
poly_all (v ∷ vs) chk = poly_all vs (poly_step chk v)

-- `bech32Polymod`, up to the checksum.
unfoldable pub poly_values : List ℕ → List ℕ → ℕ
unfolding poly_all poly_shift
poly_values hrp values =
    poly_all values
      (poly_all (map (λ c. c % 32) hrp) (poly_shift (poly_all (map (λ c. c / 32) hrp) 1)))

unfoldable pub polymod : List ℕ → List ℕ → Option (List ℕ) → ℕ
unfolding poly_values poly_all poly_shift
polymod hrp values none =
    poly_shift
      (poly_shift (poly_shift (poly_shift (poly_shift (poly_shift (poly_values hrp values))))))
polymod hrp values (some checksum) = poly_all checksum (poly_values hrp values)

-- The six values of the checksum.
unfoldable pub checksum_values : List ℕ → List ℕ → Version → List ℕ
unfolding polymod
checksum_values hrp values version =
    let p = bit_xor (polymod hrp values none) (version_const version) in
    p / 2 ^ 25 % 32
    ∷ p / 2 ^ 20 % 32
    ∷ p / 2 ^ 15 % 32
    ∷ p / 2 ^ 10 % 32
    ∷ p / 2 ^ 5 % 32
    ∷ p / 2 ^ 0 % 32
    ∷ []

-- `ConstsToVersion`
unfoldable pub version_of : ℕ → Option Version
version_of p = if p == 1 then some version0 else if p == 0x2bc830a3 then some version_m else none

-- `bech32VerifyChecksum`
unfoldable pub verify_checksum : List ℕ → List ℕ → Option Version
unfolding polymod version_of
verify_checksum hrp decoded =
    let n = length decoded - 6 in version_of (polymod hrp (take n decoded) (some (drop n decoded)))
