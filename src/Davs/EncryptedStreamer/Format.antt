-- ===== src/Davs/EncryptedStreamer/Format.antt =====
-- The format of an encrypted body, apart from the loops that write and read it: chunks of the full
-- size, then one that is shorter and sealed as the last.
use vestirust.Prelude.{
  ℕ, suc, ◌+◌, ◌*◌, ◌/◌, ◌<◌, ◌≡◌, ap, true, false, ◌++◌, length, length-append, arith,
}
use vestirust.Davs.EncryptedStreamer.Position.{plain_chunk_size, encryption_overhead}
use vestirust.Davs.EncryptedStreamer.Cipher.{Bytes, StreamCipher, IsStream}

module _ {Encryptor Decryptor : Type 0} {cipher : StreamCipher Encryptor Decryptor}
    {key nonce : Bytes} (s : IsStream cipher key nonce) where
  -- `Sealed s i plain body`: `body` holds `plain`, and its first chunk has the number `i`.
  pub data Sealed : ℕ → Bytes → Bytes → Type 0 where
    last_chunk :
        (i : ℕ) (p c : Bytes) → length p < plain_chunk_size → c ≡ s.seal i true p → Sealed i p c
    full_chunk :
        (i : ℕ) (p q c d e : Bytes)
        → length q ≡ plain_chunk_size
        → d ≡ s.seal i false q
        → (rest : Sealed (suc i) p c) → (whole : Bytes) → whole ≡ q ++ p
        → e ≡ d ++ c
        → Sealed i whole e

  -- A body has the overhead of each of its chunks.
  pub length-Sealed :
      {i : ℕ} {p c : Bytes}
      → Sealed i p c
      → length c ≡ length p + encryption_overhead * (length p / plain_chunk_size + 1)
  length-Sealed (last_chunk i p c h e) = rw e (omega (arith, s.length_seal i true p))
  length-Sealed (full_chunk i p q c d e h ed rest whole ew ee) = omega (
    arith,
    length-Sealed rest,
    s.length_seal i false q,
    ap length ed,
    ap length ew,
    ap length ee,
    length-append q p,
    length-append d c,
  )
