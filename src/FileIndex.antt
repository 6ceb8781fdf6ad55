-- ===== src/FileIndex.antt =====
-- The records of the file index of internal/fileindex/index.go.
pub mod Links
use cryp.Prelude.{ℕ, Bool, not, [], ◌==◌, length, if◌then◌else◌, Result, ok, ◌>>=◌}
use cryp.Bytes.{Bytes}
use cryp.GoText.{Text}
use cryp.Crypto.Aes.{Aes}
use cryp.Crypto.Siv.{NameError}
use cryp.Crypto.Names.{encrypt_entry_name_key}
use cryp.Crypto.Names.Index.{
  normalize_index_path, parent_virtual_path, base_virtual_name, encrypt_index_path,
}

-- `EntryInput`.
pub record EntryInput : Type 0 where
  pub vault_id : Bytes
  pub virtual_path : Text
  pub is_dir : Bool
  pub children_indexed : Bool
  pub size : ℕ
  pub mod_time : ℕ
  pub protected_hash : Bytes

-- `storage.EntryRecord`.
pub record EntryRecord : Type 0 where
  pub vault_id : Bytes
  pub path_key : Bytes
  pub parent_key : Bytes
  pub name_key : Bytes
  pub is_dir : Bool
  pub children_indexed : Bool
  pub content_hash : Bytes
  pub size : ℕ
  pub mod_time : ℕ
  pub created_at : ℕ
  pub updated_at : ℕ

module _ (aes : Aes) where
  -- The key of the parent; the root has none.
  unfoldable pub parent_key_of : Bytes → Bytes → Text → Result NameError Bytes
  parent_key_of mac_key vault_id parent =
      if not (length parent == 0) then encrypt_index_path aes mac_key vault_id parent else ok []

  -- `BuildEntryRecord`.
  unfoldable pub build_entry_record : Bytes → EntryInput → Result NameError EntryRecord
  build_entry_record mac_key input =
      let normalized = normalize_index_path input.virtual_path in
      do
        path_key ← encrypt_index_path aes mac_key input.vault_id normalized
        parent_key ← parent_key_of mac_key input.vault_id (parent_virtual_path normalized)
        name_key ←
            encrypt_entry_name_key aes mac_key input.vault_id parent_key
              (base_virtual_name normalized)
        ok (record {
          vault_id = input.vault_id;
          path_key = path_key;
          parent_key = parent_key;
          name_key = name_key;
          is_dir = input.is_dir;
          children_indexed = input.children_indexed;
          content_hash = if input.is_dir then [] else input.protected_hash;
          size = if input.is_dir then 0 else input.size;
          mod_time = input.mod_time;
          created_at = 0;
          updated_at = 0;
        })
