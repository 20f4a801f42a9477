-- ===== src/Davs/EncryptedStreamer/Cipher.antt =====
-- What src/davs/encrypted_streamer.rs uses of the crate `chacha20poly1305`, as an interface, and the
-- readers that it reads from.
use vestirust.Prelude.{
  ℕ, suc, ◌+◌, ◌<◌, ◌≤◌, ◌≡◌, Bool, true, false, ◌&&◌, Option, some, List, Result, ok, err, length,
  ltb, if◌then◌else◌,
}
use vestirust.Prelude.Slices.{take, drop}
use vestirust.Davs.EncryptedStreamer.Position.{plain_chunk_size, encryption_overhead}

abbrev pub Bytes : Type 0
Bytes = List ℕ

-- `EncryptorBE32` and `DecryptorBE32` count the chunks themselves; `StreamBE32` is given the number.
-- Each is made from a key and a nonce, the first two arguments of `encryptor`, `decryptor`, `decrypt`.
pub record StreamCipher (Encryptor Decryptor : Type 0) : Type 0 where
  pub encryptor : Bytes → Bytes → Encryptor
  pub encrypt_next : Encryptor → Bytes → Option (Bytes × Encryptor)
  pub encrypt_last : Encryptor → Bytes → Option Bytes
  pub decryptor : Bytes → Bytes → Decryptor
  pub decrypt_next : Decryptor → Bytes → Option (Bytes × Decryptor)
  pub decrypt_last : Decryptor → Bytes → Option Bytes
  pub decrypt : Bytes → Bytes → ℕ → Bool → Bytes → Option Bytes

-- The counter of a chunk is a `u32`, and its last value is refused by `encrypt_next`.
abbrev pub counter_max : ℕ
counter_max = 4_294_967_295

-- The documented behaviour: `seal` is the ciphertext of a chunk, from its number, whether it is the
-- last, and its plaintext. It is `encryption_overhead` bytes longer, and decrypts under the same key,
-- nonce, number and flag.
pub record IsStream {Encryptor Decryptor : Type 0} (c : StreamCipher Encryptor Decryptor)
    (key nonce : Bytes) : Type 0 where
  pub seal : ℕ → Bool → Bytes → Bytes
  pub encryptor_at : ℕ → Encryptor
  pub decryptor_at : ℕ → Decryptor
  pub length_seal :
      (i : ℕ) (l : Bool) (p : Bytes) → length (seal i l p) ≡ length p + encryption_overhead
  pub encryptor_start : c.encryptor key nonce ≡ encryptor_at 0
  pub encrypt_next_at :
      (i : ℕ) (p : Bytes)
      → i < counter_max
      → length p ≤ plain_chunk_size
      → c.encrypt_next (encryptor_at i) p ≡ some (seal i false p, encryptor_at (suc i))
  pub encrypt_last_at :
      (i : ℕ) (p : Bytes)
      → length p ≤ plain_chunk_size
      → c.encrypt_last (encryptor_at i) p ≡ some (seal i true p)
  pub decryptor_start : c.decryptor key nonce ≡ decryptor_at 0
  pub decrypt_next_at :
      (i : ℕ) (p : Bytes)
      → i < counter_max
      → c.decrypt_next (decryptor_at i) (seal i false p) ≡ some (p, decryptor_at (suc i))
  pub decrypt_last_at :
      (i : ℕ) (p : Bytes) → c.decrypt_last (decryptor_at i) (seal i true p) ≡ some p
  pub decrypt_at :
      (i : ℕ) (l : Bool) (p : Bytes)
      → i ≤ counter_max
      → c.decrypt key nonce i l (seal i l p) ≡ some p

-- How a call ends early. `panicked` is a panic, `out_of_fuel` is not reached.
pub data IoError : Type 0 where
  read_error unexpected_eof encrypting decrypting panicked out_of_fuel : IoError

-- The bytes that a reader still gives, and whether it then fails instead of ending.
pub record Reader : Type 0 where
  pub bytes : Bytes
  pub fails : Bool

-- `reader.take(n).read_to_end(&mut buffer)`, and the reader after it
unfoldable pub read_chunk : ℕ → Reader → Result IoError (Bytes × Reader)
read_chunk n reader =
    if reader.fails && ltb (length reader.bytes) n
    then err read_error
    else ok (take n reader.bytes, record reader { bytes = drop n reader.bytes })

abbrev pub file_reader : Bytes → Reader
file_reader bytes = record { bytes = bytes; fails = false }
