-- ===== src/Tests/Sealing.antt =====
-- The metadata of files on concrete records.
use cryp.Prelude.{◌≡◌, refl, ltb, length, take, replicate, none, List, [], ◌∷◌, codes}
use cryp.Bytes.{Bytes}
use cryp.Metadata.{MetaRecord, capped_writes, empty_buffer}
use cryp.Metadata.Capped.{joined, capped_writes-empty}

abbrev film_record : MetaRecord (Unit {0})
film_record = record {
  schema_version = 0;
  extractor_version = 0;
  binding = record { content_hash = codes "ab"; size = 7; mod_time = 9 };
  media = none;
}

abbrev master : Bytes
master = replicate 32 1

abbrev nonce : Bytes
nonce = replicate 12 5

-- Five bytes and three more into a buffer for six.
abbrev two_writes : List Bytes
two_writes = codes "12345" ∷ codes "678" ∷ []

capped_writes-empty_example :
    ((capped_writes (empty_buffer 6) two_writes).buffer ≡ take 6 (joined two_writes))
    × ((capped_writes (empty_buffer 6) two_writes).overflow ≡ ltb 6 (length (joined two_writes)))
capped_writes-empty_example = capped_writes-empty 6 two_writes (refl, (refl, tt))
