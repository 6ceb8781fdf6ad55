-- ===== src/Metadata/Sealed.antt =====
-- Metadata that was sealed is opened to the same record.
use cryp.Prelude.{Option, none, some}
use cryp.Bytes.{Bytes}
use cryp.Crypto.Gcm.{Gcm}
use cryp.Metadata.{MetaRecord, Codec, Hmac}

module _ (gcm : Gcm) (hmac : Hmac) (codec : Codec) where
  -- What `encoding/json` makes of a record that is written and read again.
  abbrev pub reread : MetaRecord codec.Media → Option (MetaRecord codec.Media)
  reread r = elim (codec.marshal r) [ none ↦ none | some text ↦ codec.unmarshal text ]
