-- ===== src/Tests/Cipher.antt =====
-- A cipher and a reader for the runs: a sealed chunk is its number, its flag, 14 zeros and the
-- plaintext.
use mathlib.Core.Option as Options
use vestirust.Prelude.{
  ℕ, suc, ◌≡◌, refl, ap, Bool, true, false, ◌&&◌, Option, none, some, ◌∷◌, length, min, ◌==◌, eq→==,
  if◌then◌else◌, arith,
}
use vestirust.Davs.EncryptedStreamer.Cipher.{Bytes, StreamCipher, IsStream}
use vestirust.Davs.Streamer.{ReadSize, IsRead}

abbrev flag : Bool → ℕ
flag true = 1
flag false = 0

abbrev seal : ℕ → Bool → Bytes → Bytes
seal i last plain = i ∷ flag last ∷ 0 ∷ 0 ∷ 0 ∷ 0 ∷ 0 ∷ 0 ∷ 0 ∷ 0 ∷ 0 ∷ 0 ∷ 0 ∷ 0 ∷ 0 ∷ 0 ∷ plain

abbrev opened : ℕ → Bool → Bytes → Option Bytes
opened i last (j ∷ f ∷ a ∷ b ∷ c ∷ d ∷ e ∷ g ∷ h ∷ k ∷ l ∷ m ∷ n ∷ o ∷ p ∷ q ∷ plain) =
    if j == i && f == flag last then some plain else none
opened i last other = none

abbrev pub counting_cipher : StreamCipher ℕ ℕ
counting_cipher = record {
  encryptor = λ key nonce. 0;
  encrypt_next = λ i plain. some (seal i false plain, suc i);
  encrypt_last = λ i plain. some (seal i true plain);
  decryptor = λ key nonce. 0;
  decrypt_next = λ i body. Options.map (λ plain. (plain, suc i)) (opened i false body);
  decrypt_last = λ i body. opened i true body;
  decrypt = λ key nonce i last body. opened i last body;
}

opened-seal : (i : ℕ) (last : Bool) (plain : Bytes) → opened i last (seal i last plain) ≡ some plain
opened-seal i true plain = rw (eq→== i i refl)
opened-seal i false plain = rw (eq→== i i refl)

pub counting_cipher-IsStream : (key nonce : Bytes) → IsStream counting_cipher key nonce
counting_cipher-IsStream key nonce = record {
  seal = seal;
  encryptor_at = λ i. i;
  decryptor_at = λ i. i;
  length_seal = λ i last plain. omega arith;
  encryptor_start = refl;
  encrypt_next_at = λ i plain h k. refl;
  encrypt_last_at = λ i plain k. refl;
  decryptor_start = refl;
  decrypt_next_at =
      λ i plain h. ap (Options.map (λ body. (body, suc i))) (opened-seal i false plain);
  decrypt_last_at = λ i plain. opened-seal i true plain;
  decrypt_at = λ i last plain h. opened-seal i last plain;
}

abbrev pub reads_all : ReadSize
reads_all n left = some (min n (length left))

some_eq : {m n : ℕ} → some m ≡ some n → m ≡ n
some_eq h = cc

pub reads_all-IsRead : IsRead reads_all
reads_all-IsRead = record {
  within = λ n left k h. omega (arith, some_eq h);
  progress = λ n left h k e. omega (arith, some_eq e);
  no_error = λ n left. (min n (length left), refl);
}
