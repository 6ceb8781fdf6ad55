-- ===== src/Metadata.antt =====
-- internal/filemeta/metadata.go: how the metadata of a file is sealed and opened, and the buffer for the
-- output of ffprobe. HMAC-SHA256 and the JSON encoding are parameters.
pub mod Sealed
pub mod Capped
use cryp.Prelude.{
  ◌≡◌, refl, sym, ap, ◌∙◌, ℕ, ◌+◌, ◌-◌, ◌<◌, ◌==◌, ltb, leb, length, take, drop, Bool, true, false,
  ◌||◌, not, Option, none, some, List, [], ◌∷◌, ◌++◌, codes, if◌then◌else◌, arith, Result, ok, err,
  ◌>>=◌, ◌>>◌, guard, or_fail, >>=-elim, or_fail-eq-ok, guard-eq-ok, take-append, drop-append,
  append_assoc, length-append, length-take, take_of_length-le, Bool-cases, inl, inr,
}
use cryp.Bytes.{Bytes}
use cryp.Crypto.Gcm.{Gcm}

-- `SchemaVersion` and `ExtractorVersion`.
abbrev pub schema_version_now : ℕ
schema_version_now = 2

abbrev pub extractor_version_now : ℕ
extractor_version_now = 2

-- `Binding`.
pub record Binding : Type 0 where
  pub content_hash : Bytes
  pub size : ℕ
  pub mod_time : ℕ

-- `Record`, over the description of the media.
pub record MetaRecord (Media : Type 0) : Type 0 where
  pub schema_version : ℕ
  pub extractor_version : ℕ
  pub binding : Binding
  pub media : Option Media

-- `encoding/json` on records. Nothing is assumed of it: it does not keep texts that are not UTF-8, nor
-- tell an empty map from none.
pub record Codec : Type 1 where
  pub Media : Type 0
  pub marshal : MetaRecord Media → Option Bytes
  pub unmarshal : Bytes → Option (MetaRecord Media)

-- HMAC-SHA256.
pub record Hmac : Type 0 where
  pub mac : Bytes → Bytes → Bytes
  pub length-mac : (key message : Bytes) → length (mac key message) ≡ 32

pub data MetadataError : Type 0 where
  not_encoded invalid_master_key no_nonce truncated : MetadataError
  not_authentic not_decoded unsupported_schema : MetadataError

-- `metadataAAD`.
unfoldable pub metadata_aad : Bytes → Bytes → Bytes
metadata_aad vault_id path_key = codes "cryp:file-metadata:v1\0" ++ (vault_id ++ (0 ∷ path_key))

module _ (gcm : Gcm) (hmac : Hmac) (codec : Codec) where
  -- `Normalize`.
  unfoldable pub normalize : MetaRecord codec.Media → MetaRecord codec.Media
  normalize r = record r {
    schema_version = if r.schema_version == 0 then schema_version_now else r.schema_version;
    extractor_version =
        if r.extractor_version == 0 then extractor_version_now else r.extractor_version;
  }

  -- `metadataKey`.
  unfoldable pub metadata_key : Bytes → Bytes → Result MetadataError Bytes
  metadata_key master_key vault_id =
      if length master_key == 32
      then ok (hmac.mac master_key (codes "cryp:file-metadata-key:v1\0" ++ vault_id))
      else err MetadataError.invalid_master_key

  -- `Seal`; the nonce of 12 bytes is drawn, and `none` where the random source fails.
  unfoldable pub seal_metadata :
      Bytes → Bytes → Bytes → MetaRecord codec.Media → Option Bytes → Result MetadataError Bytes
  seal_metadata master_key vault_id path_key r drawn = do
    plaintext ← or_fail (codec.marshal (normalize r)) MetadataError.not_encoded
    key ← metadata_key master_key vault_id
    nonce ← or_fail drawn MetadataError.no_nonce
    ok (nonce ++ gcm.seal key nonce plaintext (metadata_aad vault_id path_key))

  -- `Open`.
  unfoldable pub open_metadata :
      Bytes → Bytes → Bytes → Bytes → Result MetadataError (MetaRecord codec.Media)
  open_metadata master_key vault_id path_key sealed = do
    key ← metadata_key master_key vault_id
    guard (leb 28 (length sealed)) MetadataError.truncated
    plaintext ←
        or_fail (gcm.unseal key (take 12 sealed) (drop 12 sealed) (metadata_aad vault_id path_key))
          MetadataError.not_authentic
    r ← or_fail (codec.unmarshal plaintext) MetadataError.not_decoded
    guard (r.schema_version == schema_version_now) MetadataError.unsupported_schema
    ok r

-- `cappedBuffer`.
pub record CappedBuffer : Type 0 where
  pub buffer : Bytes
  pub limit : ℕ
  pub overflow : Bool

-- `(*cappedBuffer).Write`.
unfoldable pub capped_write : CappedBuffer → Bytes → CappedBuffer
capped_write b value =
    let remaining = b.limit - length b.buffer in
    if remaining == 0 then record b { overflow = true } else record b {
      overflow = b.overflow || ltb remaining (length value);
      buffer = b.buffer ++ take remaining value;
    }

unfoldable pub capped_writes : CappedBuffer → List Bytes → CappedBuffer
capped_writes b [] = b
capped_writes b (value ∷ values) = capped_writes (capped_write b value) values

abbrev pub empty_buffer : ℕ → CappedBuffer
empty_buffer limit = record { buffer = []; limit = limit; overflow = false }
