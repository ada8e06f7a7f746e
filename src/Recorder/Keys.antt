-- ===== src/Recorder/Keys.antt =====
-- components/recorder/src/rsdk_crypto.c: the key of the serial number, and the data key wrapped under
-- it; and where src/rsdk_storgedev.c uses them, when a disk is formatted, opened and given a new
-- salt. The serial number of the build and the random bytes are parameters.
pub mod Rekeyed
mod Tests
use nt.Prelude.{
  ℕ, zero, suc, ◌+◌, ◌-◌, ◌≡◌, List, [], ◌∷◌, ◌++◌, map, Bool, Option, none, some, ◌==◌,
  if◌then◌else◌, bit_xor, take, drop, replicate,
}
use nt.Prelude.Text.{Str, str_eq}
use nt.Prelude.Bytes.{le, from_le}
use nt.Recorder.Types.{SuperBlock}
use nt.Recorder.Layout.{FormatEnv}
use nt.Recorder.Aes.{aes256_key, encrypt_block, xor_bytes}
use nt.Recorder.Crypto.{xcrypt}
use nt.Recorder.Device.{Cipher}

abbrev pub zero_block : List ℕ
zero_block = replicate 16 0

-- The software path of rsdk_crypto_open: the block function of a key.
unfoldable pub crypto_open : List ℕ → Cipher
unfolding aes256_key encrypt_block
crypto_open dek block = encrypt_block (aes256_key dek) block

-- At most 16 bytes of the serial number go into the seed.
unfoldable pub kdf_kek : Str → List ℕ → List ℕ
unfolding crypto_open xor_bytes
kdf_kek sn salt =
    let seed = xor_bytes (replicate 32 90) (take 16 salt ++ take 16 sn) in
    let front = crypto_open seed zero_block in
    front ++ crypto_open seed (map (λ b. bit_xor b 255) front)

abbrev pub wrap_seg : ℕ
wrap_seg = 2779096485

-- The check value of a key: the first bytes of the zero block.
unfoldable pub key_check : List ℕ → List ℕ
unfolding crypto_open
key_check kek = take 8 (crypto_open kek zero_block)

unfoldable pub dek_wrap : List ℕ → List ℕ → List ℕ × List ℕ
unfolding crypto_open key_check xcrypt
dek_wrap kek dek =
    (xcrypt (crypto_open kek) wrap_seg 0 0 (take 32 dek) ++ replicate 16 0, key_check kek)

unfoldable pub dek_unwrap : List ℕ → List ℕ → List ℕ → Option (List ℕ)
unfolding crypto_open key_check xcrypt
dek_unwrap kek wrapped kcv =
    if str_eq (key_check kek) kcv
    then some (xcrypt (crypto_open kek) wrap_seg 0 0 (take 32 wrapped))
    else none

-- `opt->sn`, where it is given, and the build's serial number otherwise.
abbrev pub serial_of : Str → Option Str → Str
serial_of default_sn none = default_sn
serial_of default_sn (some sn) = sn

-- The key material of a superblock, as it is written by rsdk_format.
unfoldable pub key_material : Str → Option Str → List ℕ → List ℕ → FormatEnv → FormatEnv
unfolding kdf_kek dek_wrap
key_material default_sn opt_sn salt dek env =
    let (wrapped, kcv) = dek_wrap (kdf_kek (serial_of default_sn opt_sn) salt) dek in
    record env { kdf_salt = from_le salt; wrapped_dek = from_le wrapped; dek_kcv = from_le kcv }

-- The data key of an open disk, under the build's serial number.
unfoldable pub data_key : Str → SuperBlock → Option (List ℕ)
unfolding kdf_kek dek_unwrap
data_key sn sb =
    dek_unwrap (kdf_kek sn (le 16 sb.kdf_salt)) (le 48 sb.wrapped_dek) (le 8 sb.dek_kcv)

-- What rsdk_dev_open enciphers with.
unfoldable pub unlock_sb : Str → SuperBlock → Option Cipher
unfolding data_key
unlock_sb sn sb = elim (data_key sn sb) [ none ↦ none | some dek ↦ some (crypto_open dek) ]

-- What rsdk_dev_rekey writes into the superblock for a new salt.
unfoldable pub rewrap_sb : Str → List ℕ → SuperBlock → Option (ℕ × ℕ × ℕ)
unfolding data_key kdf_kek dek_wrap
rewrap_sb sn new_salt sb = elim (data_key sn sb) [
  | none ↦ none
  | some dek ↦
      (let (wrapped, kcv) = dek_wrap (kdf_kek sn new_salt) dek in
        some (from_le wrapped, from_le kcv, from_le new_salt))
]
