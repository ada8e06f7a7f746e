-- ===== src/Recorder/Keys/Tests.antt =====
-- The example of FIPS-197 for a key of 256 bits, a key that is wrapped, and a disk that is rekeyed twice.
use nt.Prelude.{
  ℕ, List, [], ◌∷◌, ◌≡◌, refl, arith, All, none, some, true, ◌/◌, if◌then◌else◌, replicate, has_bit,
  inl, false,
}
use nt.Prelude.Text.{Str, str_eq}
use nt.Recorder.Types.{ok, crypto}
use nt.Recorder.Layout.{FormatEnv, format_sb, feature_mask_of}
use nt.Recorder.Device.{Dev}
use nt.Recorder.Keys.{
  crypto_open, kdf_kek, key_check, dek_wrap, dek_unwrap, key_material, unlock_sb,
}
use nt.Recorder.Keys.Rekeyed.{IsSalt, accepts, rekeys, dek_unwrap-dek_wrap, rekeys-unlock_sb}
use nt.Recorder.Tests.{dev0}

abbrev dek0 : List ℕ
dek0 =
    0 ∷ 1 ∷ 2 ∷ 3 ∷ 4 ∷ 5 ∷ 6 ∷ 7 ∷ 8 ∷ 9 ∷ 10 ∷ 11 ∷ 12 ∷ 13 ∷ 14 ∷ 15 ∷ 16 ∷ 17 ∷ 18 ∷ 19 ∷ 20
    ∷ 21 ∷ 22 ∷ 23 ∷ 24 ∷ 25 ∷ 26 ∷ 27 ∷ 28 ∷ 29 ∷ 30 ∷ 31 ∷ []

crypto_open_test :
    crypto_open dek0
      (0 ∷ 17 ∷ 34 ∷ 51 ∷ 68 ∷ 85 ∷ 102 ∷ 119 ∷ 136 ∷ 153 ∷ 170 ∷ 187 ∷ 204 ∷ 221 ∷ 238 ∷ 255 ∷ [])
    ≡ 142 ∷ 162 ∷ 183 ∷ 202 ∷ 81 ∷ 103 ∷ 69 ∷ 191 ∷ 234 ∷ 252 ∷ 73 ∷ 144 ∷ 75 ∷ 73 ∷ 96 ∷ 137 ∷ []
unfolding crypto_open
crypto_open_test = refl

abbrev sn0 : Str
sn0 = b'N' ∷ b'O' ∷ []

abbrev salt0 : List ℕ
salt0 = replicate 16 7

abbrev salt1 : List ℕ
salt1 = replicate 16 9

-- The key that another serial number gives is refused.
kdf_kek_test :
    dek_unwrap
      (kdf_kek (b'X' ∷ []) salt0)
      (dek_wrap (kdf_kek sn0 salt0) dek0).0
      (dek_wrap (kdf_kek sn0 salt0) dek0).1
    ≡ none
unfolding dek_unwrap dek_wrap kdf_kek
kdf_kek_test = refl

dek_unwrap-dek_wrap_example :
    dek_unwrap dek0 (dek_wrap dek0 dek0).0 (1 ∷ [])
    ≡ (if str_eq (dek_wrap dek0 dek0).1 (1 ∷ []) then some dek0 else none)
dek_unwrap-dek_wrap_example = dek_unwrap-dek_wrap dek0 dek0 (1 ∷ []) refl (ground arith)

-- Encryption and metadata are on.
abbrev env1 : FormatEnv
env1 = record {
  cfg_mask = 3;
  cfg_slots = 4;
  cfg_hdd_full = 0;
  meta_share = λ cc. cc / 100;
  disk_uuid = 5;
  kdf_salt = 0;
  wrapped_dek = 0;
  dek_kcv = 0;
}

abbrev dev1 : Dev
dev1 = record dev0 { sb = format_sb (key_material sn0 none salt0 dek0 env1) 131072 none }

salt0-IsSalt : IsSalt salt0
salt0-IsSalt = (refl, ground arith)

salt1-IsSalt : IsSalt salt1
salt1-IsSalt = (refl, ground arith)

encrypted : has_bit (feature_mask_of env1 none) 0 ≡ true
unfolding feature_mask_of
encrypted = refl

foreign_differs : accepts sn0 (some (b'X' ∷ [])) salt0 ≡ false
unfolding key_check kdf_kek
foreign_differs = refl

rekeys-unlock_sb_example :
    (All
      (λ answer. answer ≡ (if accepts sn0 none salt0 then ok else crypto))
      (rekeys sn0 (salt1 ∷ salt0 ∷ []) dev1).0)
    × (unlock_sb sn0 (rekeys sn0 (salt1 ∷ salt0 ∷ []) dev1).1.sb
        ≡ (if accepts sn0 none salt0 then some (crypto_open dek0) else none))
rekeys-unlock_sb_example =
    rekeys-unlock_sb env1 131072 none sn0 none salt0 dek0 (salt1 ∷ salt0 ∷ []) dev1 encrypted refl
      salt0-IsSalt (salt1-IsSalt, (salt0-IsSalt, tt)) refl (ground arith) (inl refl)
