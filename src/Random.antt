-- ===== src/Random.antt =====
-- The seeded generators: `hashSeed` and `seededRandom` of
-- server/src/modules/characters/stats/stat.service.ts and .../traits/trait.service.ts, the same hash
-- in `generateSeed` of .../birth/birth.service.ts, and `mulberry32` of .../wheels/wheel.service.ts.
-- A 32-bit integer is its bit pattern, a number below 2 ^ 32; a text is the list of its character
-- codes.
pub mod Biased
mod Tests
use Prim.Native.Nat.{bit_or, bit_xor}
use Prim.Native.Char.{code}
use mmorpg_design_documents.Base.{
  ℕ, zero, suc, ◌+◌, ◌-◌, ◌*◌, ◌/◌, ◌%◌, ◌^◌, List, [], ◌∷◌, ◌++◌, String, ltb, if◌then◌else◌,
}
use mmorpg_design_documents.Base.Int.{pos}
use mmorpg_design_documents.Base.Double.{Double}
use mmorpg_design_documents.Base.Key.{EntityId, issued, chosen}

abbrev pub word_count : ℕ
word_count = 2 ^ 32

-- `x | 0`, `x >>> 0` of a whole number that is not negative, as a pattern.
abbrev pub to_word : ℕ → ℕ
to_word n = n % word_count

abbrev pub xor : ℕ → ℕ → ℕ
xor a b = to_word (bit_xor a b)

abbrev pub or : ℕ → ℕ → ℕ
or a b = to_word (bit_or a b)

-- `a << k`
abbrev pub shift_left : ℕ → ℕ → ℕ
shift_left a k = to_word (a * 2 ^ k)

-- `a >>> k`
abbrev pub shift_right : ℕ → ℕ → ℕ
shift_right a k = a / 2 ^ k

-- `a >> k`, which keeps the sign bit.
abbrev pub shift_signed : ℕ → ℕ → ℕ
shift_signed a k =
    if ltb a (2 ^ 31) then a / 2 ^ k else word_count - 1 - (word_count - 1 - a) / 2 ^ k

-- `Math.imul(a, b)`
abbrev pub imul : ℕ → ℕ → ℕ
imul a b = to_word (a * b)

-- The absolute value of the integer that a pattern stands for.
abbrev pub magnitude : ℕ → ℕ
magnitude a = if ltb a (2 ^ 31) then a else word_count - a

-- One round of the hash, `((h << 5) - h + c) | 0`.
unfoldable pub hash_step : ℕ → ℕ → ℕ
hash_step h c = to_word (shift_left h 5 + (word_count - h) + c)

unfoldable pub hash_from : ℕ → List ℕ → ℕ
hash_from h [] = h
hash_from h (c ∷ cs) = hash_from (hash_step h c) cs

-- `hashSeed(input)`
unfoldable pub hash_seed : List ℕ → ℕ
hash_seed input = hash_from 0 input

-- `charCodeAt` at each index of a text of the basic plane.
abbrev pub codes : String → List ℕ
codes String.[] = []
codes (String.◌∷◌ c s) = code c ∷ codes s

-- The digits of a number as a template literal prints it; the number itself is fuel enough.
unfoldable pub digits : ℕ → ℕ → List ℕ → List ℕ
digits zero n shown = shown
digits (suc fuel) n shown =
    let more = (48 + n % 10) ∷ shown in
    let rest = digits fuel (n / 10) more in if ltb n 10 then more else rest

unfoldable pub decimal_text : ℕ → List ℕ
unfolding digits
decimal_text n = digits (suc n) n []

unfoldable pub id_text : EntityId → List ℕ
unfolding decimal_text
id_text (issued p t n) = codes p ++ (b'_' ∷ (decimal_text t ++ (b'_' ∷ decimal_text n)))
id_text (chosen s) = codes s

-- The state of `seededRandom` after its three rounds.
abbrev pub scramble : ℕ → ℕ
scramble seed =
    let a = xor seed (shift_left seed 13) in
    let b = xor a (shift_signed a 17) in xor b (shift_left b 5)

-- The pattern that the first call of `mulberry32(seed)` divides by 2 ^ 32.
abbrev pub mulberry_word : ℕ → ℕ
mulberry_word seed =
    let s = to_word (seed + 0x6d2b79f5) in
    let t = imul (xor s (shift_right s 15)) (or 1 s) in
    let u = xor (to_word (t + imul (xor t (shift_right t 7)) (or 61 t))) t in
    xor u (shift_right u 14)

module _ {κ} {W : Type κ} ⦃doubles : Double W⦄ where
  -- `seededRandom(seed)`
  unfoldable pub seeded_random : ℕ → W
  seeded_random seed =
      doubles.div (doubles.whole (pos (magnitude (scramble seed) % 10000)))
        (doubles.whole (pos 10000))

  -- `mulberry32(seed)()`, the first call.
  unfoldable pub mulberry32 : ℕ → W
  mulberry32 seed =
      doubles.div (doubles.whole (pos (mulberry_word seed))) (doubles.whole (pos word_count))
