-- ===== src/Lib.antt =====
-- Verification of the core of cryp, a server that keeps encrypted vaults.
--
-- A vault directory holds files whose contents and names are encrypted. A password unlocks the two
-- vault keys; a session keeps them in memory; the content code encrypts files in chunks; the name
-- code encrypts names deterministically; the vault code finds the folders and files of a virtual
-- path; background tasks import files and rebuild the index; a generator makes thumbnails; the HTTP
-- API serves decrypted files, whole or in ranges, and videos as streams that ffmpeg transcodes.
--
-- Files and the code that they model:
-- - Crypto/KeyWrap, Crypto/Keys: internal/crypto/keys.go. `aes_key_wrap` and `aes_key_unwrap` are
--   AESKeyWrap and AESKeyUnwrap, with the inner loops as recursion over the registers;
--   `create_vault_config` and `unlock_vault` are CreateVaultConfig and UnlockVault.
-- - Crypto/Content: internal/crypto/content.go. Sizes is the size and offset arithmetic over int64
--   bit patterns; Chunk the header and single chunks; Writer and Reader the states of
--   EncryptingWriter and DecryptingReader; Stream is a specification of the format of its own.
-- - Crypto/Siv, Crypto/Names, Crypto/Base64: internal/crypto/filename.go, with the counter mode of
--   crypto/cipher and the base64 of the standard library written out.
-- - Crypto/Names/Index, over GoPath: the virtual paths and the index keys of
--   internal/crypto/filename.go; GoPath is path/filepath on Unix, GoPath/Clean and GoPath/Parent its laws.
-- - Crypto/Vault: internal/crypto/vault.go, ResolvePath and the operations on top of it. Walk is the way
--   through folders as a relation; Create and Locate are about CreateEncryptedDirectory,
--   GetEncryptedFilePath and ResolveExistingFilePath. A path of the file system is a list of elements.
-- - FileIndex: internal/fileindex/index.go, BuildEntryRecord.
-- - Session, over GoMap: internal/session/store.go. Key material lies in a heap, so that zeroing
--   keys in place and sharing them by reference are visible.
-- - Task: internal/task/manager.go. Task itself is the manager and its critical sections, Starts the
--   chains of StartImport and StartRebuildIndex, Uploads the upload records and the recovery. Calls
--   runs the critical sections in any order; Barrier, Exclusive and Resume are about vaults that are
--   being removed, the slots, and the reopening of vaults, Entries, Owes and Owed about resumptions
--   that are deferred, Admission about admitBackgroundTask.
-- - Thumb: internal/thumbnail/thumbnail.go. Thumb is the state with the vaults' lifecycles, Queue the
--   admission, Worker the worker, Calls the critical sections in any order. Observe, Kept, Opening and
--   Frame say what a call changes of a vault; Counts, Admit, Rounds and Sound are about the counts,
--   Shut and Barrier about vaults that take no jobs.
-- - Hls: internal/api/files_hls.go and hls_errors.go. Hls is the state and the owners of streams, Start
--   the admission and the report of a start, Stop the collection of what is to stop, Cleanup the end of a
--   stream and the access to it, Errors the statuses, Profiles the choice of a transcoding profile, Calls
--   the critical sections in any order. Shape, Gentle, Moves, Slots, Sane, Reports, Ends and Reachable
--   are about what all reachable states have in common; Barrier and Collected about streams that are
--   stopped under hlsLifeMu, Refs about the owners, Within about hlsPathWithin, Answers about the
--   waiters, Fallback about the profiles.
-- - Api/Range, over GoText: internal/api/files_content.go, handleFileContent from the open file on, and
--   handleRangeRequest. GoText is what they use of strings and strconv.
-- - PathGuard, over GoPath: internal/pathguard. PathGuard is source.go and Vaults is vault.go, over the
--   answers of the os package; Inside, Reserved, Imports and Removal are about them.
-- - Metadata: internal/filemeta/metadata.go, Seal and Open, and the capped buffer.
-- - Tail: internal/procgroup/output.go, the buffer for the output of external tools.
-- - Crypto/Aes, Crypto/Gcm: the parameters, which stand for crypto/aes, crypto/cipher and crypto/rand;
--   `Scrypt` in Crypto/Keys stands for golang.org/x/crypto/scrypt, and `Sink` and `Source` for io.Writer
--   and io.ReadFull. `FileSystem`
--   in Crypto/Vault stands for the files of the os package and `Sha` for crypto/sha256,
--   `Hmac` and `Codec` in Metadata for crypto/hmac and encoding/json,
--   and `Machine` in PathGuard for what os and path/filepath say of links and directories. Each has only
--   laws that the packages document. Toy holds stand-ins for tests.
-- - Prelude, Bytes, Int64: shared lists, results, byte strings and two's complement.
-- - Tests: the models on concrete data.
--
-- Fuel: the loop of EncryptingWriter.Write takes the length of its input plus 2, since every round
-- but the first takes a byte or more. `read_all` is a client of the reader; it takes one round for
-- each byte and one for the end. `copy_limited` takes one round for each byte of its limit and one for
-- the end; its callers add the size of the stored file.
--
-- Not modelled: the other handlers of the HTTP API, the SQL of the database, the runs of
-- ffmpeg, directory listings, temporary files and renames, the probing of media files, and the browser
-- client. Calls into packages that keep no state of the program's own are left out.
pub mod Api
pub mod Bytes
pub mod Crypto
pub mod FileIndex
pub mod GoMap
pub mod GoPath
pub mod GoText
pub mod Hls
pub mod Int64
pub mod Metadata
pub mod PathGuard
pub mod Prelude
pub mod Session
pub mod Tail
pub mod Task
pub mod Tests
pub mod Thumb
pub mod Toy
