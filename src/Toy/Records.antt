-- ===== src/Toy/Records.antt =====
-- A stand-in for the encoding of metadata: the fields one after another, without a description of media.
use cryp.Prelude.{ℕ, zero, suc, Option, some, none, ◌∷◌, replicate, length-replicate}
use cryp.Bytes.{Bytes}
use cryp.Metadata.{MetaRecord, Codec, Hmac}

abbrev pub flag : Option (Unit {0}) → ℕ
flag none = 0
flag (some m) = 1

abbrev pub unflag : ℕ → Option (Unit {0})
unflag zero = none
unflag (suc n) = some tt

abbrev pub toy_marshal : MetaRecord (Unit {0}) → Option Bytes
toy_marshal r = some (
    r.schema_version
    ∷ r.extractor_version
    ∷ r.binding.size
    ∷ r.binding.mod_time
    ∷ flag r.media
    ∷ r.binding.content_hash)

abbrev pub toy_unmarshal : Bytes → Option (MetaRecord (Unit {0}))
toy_unmarshal (schema ∷ extractor ∷ size ∷ mod_time ∷ media ∷ hash) = some (record {
  schema_version = schema;
  extractor_version = extractor;
  binding = record { content_hash = hash; size = size; mod_time = mod_time };
  media = unflag media;
})
toy_unmarshal _ = none

abbrev pub toy_codec : Codec
toy_codec = record { Media = Unit {0}; marshal = toy_marshal; unmarshal = toy_unmarshal }

abbrev pub toy_hmac : Hmac
toy_hmac = record {
  mac = λ key message. replicate 32 0x3c;
  length-mac = λ key message. length-replicate {A = ℕ} 32 0x3c;
}
