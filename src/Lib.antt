-- ===== src/Lib.antt =====
-- telang serves the S3 API over a Telegram chat: it encrypts each object, sends the ciphertext as
-- one message, and keeps an SQLite index of what stands where.
--
-- The parts, and the files that model them:
--
-- Crypto (internal/crypto/crypto.go): Layout has the header, the sizes, nonces and associated data
-- of the on-disk format; Stream is the loop that encrypter.Read and decrypter.Read share, over the
-- nextFrame methods of Encrypt and Decrypt; Range is DecryptRange. AES-GCM is the parameter Aead,
-- with the laws that crypto/cipher documents. A source is what an io.Reader still delivers, as a
-- list. Sealed is the specification of a ciphertext; Encrypted, Decrypted, Reads, Calls, Blob,
-- Header, FrameAt, Ranged and Nonces relate the code to it. A loop of frames or of a Read runs on
-- fuel, and `stalled` marks fuel that ran out; ciphertext_size is the sum of CiphertextSize, which
-- the service's model takes, and ciphertext_size_int64 the int64 that it wraps around to, the same
-- number below 2 ^ 63; encrypt_all and decrypt_all take two more than the bytes they read, since
-- each frame but an only empty one has a byte of them.
--
-- Metadata (internal/metadata/metadata.go): Order has the orders of the keys, Table a table with a
-- primary key as the list of its rows, Appends one that is filled in the order of its key, Store
-- and Multipart the operations, Refinement their objects' part against a map. Each SQL statement
-- is the change of the tables that it makes. A failure of the driver is modelled where it is a
-- conflict of keys. Strings are lists of code points there, since substr counts characters and len
-- bytes; none of them is NUL, at which substr would stop. Times are seconds, as the tables hold
-- them, and the fraction of a second in the row that PutObject returns is left out.
--
-- Keys (internal/keys/keys.go): the map of the keys and the lines of keys.toml, each the name of a
-- bucket and its key in base64; the quotes of %q around them are left out. The random bytes and
-- whether the file could be written are arguments.
--
-- S3 (internal/s3api): Router is ServeHTTP with its dispatch, Paths splitPath and validBucketName,
-- ByteRange parseRange, Errors the catalogue and the translations of errors, Listing listObjectsV2
-- with its loop on fuel, for which ListLoop shows how much is enough.
--
-- Storage (internal/storage): Interface has the references and the errors of a backend, BotCalls
-- the Bot API's calls with their retries, Bot the backend, BotNew its making. The HTTP client, the
-- clock, the decoders of JSON and the printers of forms are parameters. The codes and the delays
-- of the API are numbers that are not negative. The retries run on the attempts that are left.
--
-- Service (internal/s3api/service.go): World is what the service holds and calls, Objects and
-- Buckets are its operations, and Uploads, Ciphers and RoundTrip follow an object from PutObject
-- to GetObject. The backend, MD5 and the package of the cache, which the repository does not
-- contain, are parameters. A request runs to its end before the next one; the locks and goroutines
-- are not modelled, and a stream is read to its end at once.
--
-- Multipart (internal/s3api/multipart.go): Staging has the files of the parts and the loop over
-- the parts of a request, Operations CreateMultipart, UploadPart, CompleteMultipart and
-- AbortMultipart, which share the upload of PutObject; Lookups, Staged, Kept, Tables, Steps and
-- ReadBack follow the rows and the files. A file is known by its directory and the number of its
-- part. DeleteMultipart behind the removal of the files may fail, and leaves the rows then.
-- strings.EqualFold and the path of a staging directory are parameters.
--
-- Handlers (internal/s3api/handlers.go and multipart.go): Bodies has putBodySize and stageTemp,
-- Objects and Uploads the handlers, which answer with a Reply, Delivery a GET behind a PUT. The
-- decoder of XML and the format of times are parameters, and of an XML answer only the values that
-- vary are kept.
--
-- SigV4 (internal/sigv4/sigv4.go): Text has what it uses of the standard library, Canonical the
-- canonical request, Auth the header, the keys, Verify and verifyPresigned, Chunked the two
-- chunked readers, HashBody the hash-checking reader below io.ReadFull. SHA-256, HMAC, time.Parse
-- and the functions that go by Unicode's tables are parameters. A chain of checks is written in
-- Checks' do blocks; Accepted, Escape, Order, BlankLine and Chain are about the code. Times are
-- nanoseconds. The loop over trailers has fuel for each byte that is left.
--
-- Browser (internal/s3api/browser.go): FileNames has sanitizeFilename with the functions of
-- path/filepath on a system whose separator is the slash, Sessions the tokens, Pages the request
-- and the answers as values, Site dispatch and the handlers over the operations of Service.
-- ReadOnly, Steps, SessionLaws, Visits and SafeNames are about them. The clock, the random token
-- and the parsed form are arguments. Times are nanoseconds.
--
-- Mtproto (internal/storage/mtproto/mtproto.go): Messages has the answers of the Telegram client
-- with the constructors that the code asks for, Backend Put, Get, Exists and Delete, Connection
-- Open and Close. The client is a parameter. The goroutine of Open is how far Run gets, the values
-- that its callback sends, and the close of the channel; the choice of the select is an argument.
-- The pipe of Get is its bytes with their end.
--
-- Config (internal/config/config.go, and buildBackend of cmd/telang/main.go): Sizes has ParseSize
-- over a record of floating-point operations, SizeLaws the units by their powers, Settings the
-- records, Loading the defaults, the validation and buildBackend, and Credentials newS3Credentials
-- of cmd/telang/init.go. TOML is read outside.
--
-- Admin (cmd/telang): Fsck has fsck.go, Records and Import have metadata_io.go, each behind the
-- reading of the configuration. JSON and base64 are codecs that read what they print, and the
-- lines are those that bufio.Scanner delivers. ForEachMultipart has no ORDER BY, and its rows are
-- taken in the order of their ids. Lines, Grouping, RoundTrip and Restore are about an import of
-- an export.
--
-- Not modelled: the dialogues of init, reauth and InteractiveAuth, the order in which serve
-- starts, the templates of the browser interface, and the handlers of buckets, which only move
-- values into headers and XML.
--
-- Common has the shared types and lemmas, the decimal print of a number, and standard base64.
-- Examples has the theorems at concrete inputs.
pub mod Common
pub mod Crypto
pub mod Storage
pub mod Metadata
pub mod Keys
pub mod S3
pub mod SigV4
pub mod Multipart
pub mod Handlers
pub mod Browser
pub mod Mtproto
pub mod Config
pub mod Admin
pub mod Service
pub mod Examples
