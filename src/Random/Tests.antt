-- ===== src/Random/Tests.antt =====
-- Runs of the seeded generators at concrete inputs.
use mmorpg_design_documents.Base.{◌≡◌, refl}
use mmorpg_design_documents.Base.Key.{issued}
use mmorpg_design_documents.Random.{
  codes, hash_step, hash_from, hash_seed, digits, decimal_text, id_text, mulberry_word,
}

hash_of_ab : hash_seed (codes "ab") ≡ 3105
unfolding hash_seed hash_from hash_step
hash_of_ab = refl

first_word : mulberry_word 1 ≡ 2693262067
first_word = refl

text_of_id : id_text (issued "chr" 1705 12) ≡ codes "chr_1705_12"
unfolding id_text decimal_text digits
text_of_id = refl

long_hash : hash_seed (codes "chr_1705_12:race:1705") ≡ 4097189277
unfolding hash_seed hash_from hash_step
long_hash = refl
