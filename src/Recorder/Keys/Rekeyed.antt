-- ===== src/Recorder/Keys/Rekeyed.antt =====
-- The data key comes back from its wrapping, and stays the same however often a disk is rekeyed.
use nt.Prelude.{
  ◌==◌, ==_iff, ◌⊎◌, inl, inr, false, get_or, ◌<◌, All, ℕ, ◌+◌, ◌≡◌, refl, sym, ap, ap₂, ◌∙◌, arith,
  List, [], ◌∷◌, ◌++◌, Bool, true, Option, none, some, if◌then◌else◌, take, take-append, take_short,
  replicate, length, length-append, length-take, has_bit, subst,
}
use nt.Prelude.Text.{Str, str_eq, str_eq_refl}
use nt.Prelude.Bytes.{le, from_le}
use nt.Prelude.Bits.{IsBytes, le-from_le, IsBytes-of_All, append-IsBytes, take-IsBytes}
use nt.Recorder.Types.{SuperBlock, Err, ok, crypto}
use nt.Recorder.Layout.{FormatEnv, FormatOpt, format_sb, feature_mask_of, seal_sb}
use nt.Recorder.Aes.{encrypt_block, aes256_key}
use nt.Recorder.Aes.Output.{encrypt_block-byte, encrypt_block-IsBytes, length-encrypt_block}
use nt.Recorder.Crypto.{xcrypt, xcrypt_twice, xcrypt-IsBytes, length-xcrypt}
use nt.Recorder.Device.{Dev, Cipher, flush, rekey}
use nt.Recorder.Keys.{
  zero_block, crypto_open, kdf_kek, wrap_seg, key_check, dek_wrap, dek_unwrap, key_material,
  data_key, unlock_sb, rewrap_sb, serial_of,
}

block-byte : (kek block : List ℕ) (k : ℕ) → get_or (crypto_open kek block) k 0 < 256
unfolding crypto_open
block-byte kek block k = encrypt_block-byte (aes256_key kek) block k

-- A data key of 32 bytes is wrapped under any key: with the check value of the wrapping it is
-- unwrapped again, and with any other check value it is refused.
pub dek_unwrap-dek_wrap :
    (kek dek kcv : List ℕ)
    → length dek ≡ 32
    → All (λ b. b < 256) dek
    → dek_unwrap kek (dek_wrap kek dek).0 kcv
      ≡ (if str_eq (dek_wrap kek dek).1 kcv then some dek else none)
unfolding dek_unwrap dek_wrap
dek_unwrap-dek_wrap kek dek kcv e a =
    let whole : take 32 dek ≡ dek = take_short 32 dek (omega (arith, e)) in
    let sealed = xcrypt (crypto_open kek) wrap_seg 0 0 (take 32 dek) in
    let front : take 32 (sealed ++ replicate 16 0) ≡ sealed =
      ap (λ n. take n (sealed ++ replicate 16 0))
        (sym (length-xcrypt (crypto_open kek) wrap_seg 0 0 (take 32 dek) ∙ ap length whole ∙ e))
      ∙ take-append sealed (replicate 16 0) in
    ap (λ d. if str_eq (key_check kek) kcv then some d else none)
      (ap (xcrypt (crypto_open kek) wrap_seg 0 0)
          (front ∙ ap (xcrypt (crypto_open kek) wrap_seg 0 0) whole)
        ∙ xcrypt_twice (crypto_open kek) wrap_seg 0 0 dek (λ block k. block-byte kek block k) a)

-- The parts of a wrapping have their widths.
length-wrapped : (kek dek : List ℕ) → length dek ≡ 32 → length (dek_wrap kek dek).0 ≡ 48
unfolding dek_wrap
length-wrapped kek dek e =
    length-append (xcrypt (crypto_open kek) wrap_seg 0 0 (take 32 dek)) (replicate 16 0)
    ∙ ap (λ n. n + 16)
        (length-xcrypt (crypto_open kek) wrap_seg 0 0 (take 32 dek)
          ∙ ap length (take_short 32 dek (omega (arith, e)))
          ∙ e)

length-key_check : (kek dek : List ℕ) → length (dek_wrap kek dek).1 ≡ 8
unfolding dek_wrap key_check crypto_open
length-key_check kek dek =
    let e = length-encrypt_block (aes256_key kek) zero_block refl in
    length-take 8 (encrypt_block (aes256_key kek) zero_block) ∙ omega (arith, e)

wrapped-IsBytes : (kek dek : List ℕ) → IsBytes dek → IsBytes (dek_wrap kek dek).0
unfolding dek_wrap
wrapped-IsBytes kek dek a =
    append-IsBytes
      (xcrypt-IsBytes (crypto_open kek) wrap_seg 0 0 (take 32 dek)
        (λ block k. block-byte kek block k) (take-IsBytes 32 dek a))
      (IsBytes-of_All (replicate 16 0) (ground arith))

key_check-IsBytes : (kek dek : List ℕ) → IsBytes (dek_wrap kek dek).1
unfolding dek_wrap key_check crypto_open
key_check-IsBytes kek dek = take-IsBytes 8 _ (encrypt_block-IsBytes (aes256_key kek) zero_block)

field-le : (n : ℕ) (bs : List ℕ) → length bs ≡ n → IsBytes bs → le n (from_le bs) ≡ bs
field-le n bs e a = subst (λ k. le k (from_le bs) ≡ bs) e (le-from_le bs a)

-- A superblock that holds the wrapping of a data key for a salt gives that data key.
data_key-wrapped :
    (sn : Str) (salt dek : List ℕ) (sb : SuperBlock)
    → length salt ≡ 16
    → All (λ b. b < 256) salt
    → length dek ≡ 32
    → All (λ b. b < 256) dek
    → sb.kdf_salt ≡ from_le salt
    → sb.wrapped_dek ≡ from_le (dek_wrap (kdf_kek sn salt) dek).0
    → sb.dek_kcv ≡ from_le (dek_wrap (kdf_kek sn salt) dek).1
    → data_key sn sb ≡ some dek
unfolding data_key
data_key-wrapped sn salt dek sb ls s ld d e0 e1 e2 =
    let kek = kdf_kek sn salt in
    let w = dek_wrap kek dek in
    let bytes = IsBytes-of_All dek d in
    ap₂ (λ x y. dek_unwrap (kdf_kek sn x) y (le 8 sb.dek_kcv))
      (ap (le 16) e0 ∙ field-le 16 salt ls (IsBytes-of_All salt s))
      (ap (le 48) e1 ∙ field-le 48 w.0 (length-wrapped kek dek ld) (wrapped-IsBytes kek dek bytes))
    ∙ ap (dek_unwrap kek w.0)
        (ap (le 8) e2 ∙ field-le 8 w.1 (length-key_check kek dek) (key_check-IsBytes kek dek))
    ∙ dek_unwrap-dek_wrap kek dek w.1 ld d
    ∙ ap (λ b. if b then some dek else none) (str_eq_refl w.1)

-- A disk that is given one new salt after the other, and what each call answers.
unfoldable pub rekeys : Str → List (List ℕ) → Dev → List Err × Dev
unfolding rekey
rekeys sn [] d = ([], d)
rekeys sn (salt ∷ salts) d =
    let (answer, d') = rekey (rewrap_sb sn salt) d in
    let (answers, last) = rekeys sn salts d' in (answer ∷ answers, last)

abbrev pub IsSalt : List ℕ → Type 0
IsSalt salt = (length salt ≡ 16) × All (λ b. b < 256) salt

rekey-data_key :
    (sn : Str) (salt dek : List ℕ) (d : Dev)
    → IsSalt salt
    → length dek ≡ 32
    → All (λ b. b < 256) dek
    → d.sb.enc_algo ≡ 1
    → data_key sn d.sb ≡ some dek
    → ((rekey (rewrap_sb sn salt) d).0 ≡ ok)
      × (data_key sn (rekey (rewrap_sb sn salt) d).1.sb ≡ some dek)
      × ((rekey (rewrap_sb sn salt) d).1.sb.enc_algo ≡ 1)
unfolding rekey rewrap_sb flush seal_sb
rekey-data_key sn salt dek d s ld b enc key =
    let w = dek_wrap (kdf_kek sn salt) dek in
    let sb = record d.sb {
      wrapped_dek = from_le w.0;
      dek_kcv = from_le w.1;
      kdf_salt = from_le salt;
    } in
    rw (enc, key) (refl, data_key-wrapped sn salt dek (seal_sb sb) s.0 s.1 ld b refl refl refl, enc)

rekeys-data_key :
    (sn : Str) (dek : List ℕ) (salts : List (List ℕ)) (d : Dev)
    → All IsSalt salts
    → length dek ≡ 32
    → All (λ b. b < 256) dek
    → d.sb.enc_algo ≡ 1
    → data_key sn d.sb ≡ some dek
    → (All (λ answer. answer ≡ ok) (rekeys sn salts d).0)
      × (data_key sn (rekeys sn salts d).1.sb ≡ some dek)
unfolding rekeys
rekeys-data_key sn dek [] d s ld b enc key = (tt, key)
rekeys-data_key sn dek (salt ∷ salts) d s ld b enc key =
    let (answered, kept, still) = rekey-data_key sn salt dek d s.0 ld b enc key in
    let rest = rekeys-data_key sn dek salts (rekey (rewrap_sb sn salt) d).1 s.1 ld b still kept in
    ((answered, rest.0), rest.1)

-- A superblock whose data key was wrapped under another serial number, of which the check value
-- shows it, gives none; then every rekey is refused and changes nothing.
data_key-refused :
    (sn other : Str) (salt dek : List ℕ) (sb : SuperBlock)
    → length salt ≡ 16
    → All (λ b. b < 256) salt
    → str_eq (key_check (kdf_kek sn salt)) (key_check (kdf_kek other salt)) ≡ false
    → sb.kdf_salt ≡ from_le salt
    → sb.dek_kcv ≡ from_le (dek_wrap (kdf_kek other salt) dek).1
    → data_key sn sb ≡ none
unfolding data_key dek_unwrap dek_wrap
data_key-refused sn other salt dek sb ls s differ e0 e2 =
    let kek = kdf_kek other salt in
    let at : le 16 sb.kdf_salt ≡ salt =
      ap (le 16) e0 ∙ field-le 16 salt ls (IsBytes-of_All salt s) in
    let check : le 8 sb.dek_kcv ≡ key_check kek =
      ap (le 8) e2
      ∙ field-le 8 (dek_wrap kek dek).1 (length-key_check kek dek) (key_check-IsBytes kek dek) in
    ap₂ (λ x y. dek_unwrap (kdf_kek sn x) (le 48 sb.wrapped_dek) y) at check
    ∙ ap
        (λ b.
          if b
          then some
              (xcrypt (crypto_open (kdf_kek sn salt)) wrap_seg 0 0 (take 32 (le 48 sb.wrapped_dek)))
          else none)
        differ

refused :
    (d : Dev) (sn : Str) (salt : List ℕ)
    → (d.sb.enc_algo == 1) ≡ true
    → data_key sn d.sb ≡ none
    → rekey (rewrap_sb sn salt) d ≡ (crypto, d)
unfolding rekey rewrap_sb
refused d sn salt enc none_left = rw (enc, none_left) refl

rekeys-refused :
    (sn : Str) (salts : List (List ℕ)) (d : Dev)
    → d.sb.enc_algo ≡ 1
    → data_key sn d.sb ≡ none
    → (All (λ answer. answer ≡ crypto) (rekeys sn salts d).0) × ((rekeys sn salts d).1 ≡ d)
unfolding rekeys rekey rewrap_sb
rekeys-refused sn [] d enc none_left = (tt, refl)
rekeys-refused sn (salt ∷ salts) d enc none_left =
    let rest = rekeys-refused sn salts d enc none_left in
    let step : rekey (rewrap_sb sn salt) d ≡ (crypto, d) =
      refused d sn salt ((==_iff d.sb.enc_algo 1).1 enc) none_left in
    (
      (
        ap (λ r. r.0) step,
        subst (λ x. All (λ answer. answer ≡ crypto) (rekeys sn salts x).0)
            (sym (ap (λ r. r.1) step)) rest.0,
      ),
      ap (λ x. (rekeys sn salts x).1) (ap (λ r. r.1) step) ∙ rest.1,
    )

-- The check value that formatting leaves is that of the build's serial number.
abbrev pub accepts : Str → Option Str → List ℕ → Bool
accepts default_sn opt_sn salt =
    str_eq (key_check (kdf_kek default_sn salt))
      (key_check (kdf_kek (serial_of default_sn opt_sn) salt))

-- A disk is formatted with encryption, for the serial number that is asked for or for the build's,
-- under any salt and data key of bytes. Where the number is the build's, any number of rekeys under
-- any salts all succeed, and the disk is unlocked with the cipher of the data key that it was
-- formatted with, so that what was recorded before stays readable. Where the number is another one
-- whose check value differs, every rekey is refused and the disk is not unlocked.
pub rekeys-unlock_sb :
    (env : FormatEnv) (sectors : ℕ) (opt : Option FormatOpt) (default_sn : Str)
    (opt_sn : Option Str) (salt dek : List ℕ) (salts : List (List ℕ)) (d : Dev)
    → has_bit (feature_mask_of env opt) 0 ≡ true
    → d.sb ≡ format_sb (key_material default_sn opt_sn salt dek env) sectors opt
    → IsSalt salt
    → All IsSalt salts
    → length dek ≡ 32
    → All (λ b. b < 256) dek
    → (serial_of default_sn opt_sn ≡ default_sn) ⊎ (accepts default_sn opt_sn salt ≡ false)
    → (All
        (λ answer. answer ≡ (if accepts default_sn opt_sn salt then ok else crypto))
        (rekeys default_sn salts d).0)
      × (unlock_sb default_sn (rekeys default_sn salts d).1.sb
          ≡ (if accepts default_sn opt_sn salt then some (crypto_open dek) else none))
unfolding unlock_sb format_sb seal_sb key_material feature_mask_of
rekeys-unlock_sb env sectors opt default_sn opt_sn salt dek salts d enc e s ss ld b which =
    elim which [
      | inl own ↦
          let fits : accepts default_sn opt_sn salt ≡ true =
            ap (λ sn. str_eq (key_check (kdf_kek default_sn salt)) (key_check (kdf_kek sn salt)))
              own
            ∙ str_eq_refl (key_check (kdf_kek default_sn salt)) in
          let key =
            data_key-wrapped default_sn salt dek d.sb s.0 s.1 ld b salted
              (wrap ∙ ap (λ sn. from_le (dek_wrap (kdf_kek sn salt) dek).0) own)
              (kcv ∙ ap (λ sn. from_le (dek_wrap (kdf_kek sn salt) dek).1) own) in
          let (answered, kept) = rekeys-data_key default_sn dek salts d ss ld b algo key in
          rw fits (answered, ap opened kept)
      | inr differ ↦
          let (answered, same) = rekeys-refused default_sn salts d algo (
            data_key-refused default_sn (serial_of default_sn opt_sn) salt dek d.sb s.0 s.1 differ
              salted kcv) in
          rw differ (
            answered,
            ap (λ x. unlock_sb default_sn x.sb) same
                ∙ ap opened (
                    data_key-refused default_sn (serial_of default_sn opt_sn) salt dek d.sb s.0 s.1
                      differ salted kcv),
          )
    ]
  where
    opened : Option (List ℕ) → Option Cipher
    opened o = elim o [ none ↦ none | some k ↦ some (crypto_open k) ]

    chosen : (n : ℕ) → (if has_bit (feature_mask_of env opt) 0 then n else 0) ≡ n
    chosen n = ap (λ (x : Bool). if x then n else 0) enc

    algo : d.sb.enc_algo ≡ 1
    algo = ap (λ x. x.enc_algo) e ∙ chosen 1

    salted : d.sb.kdf_salt ≡ from_le salt
    salted = ap (λ x. x.kdf_salt) e ∙ chosen (from_le salt)

    wrap : d.sb.wrapped_dek ≡ from_le (dek_wrap (kdf_kek (serial_of default_sn opt_sn) salt) dek).0
    wrap = ap (λ x. x.wrapped_dek) e ∙ chosen _

    kcv : d.sb.dek_kcv ≡ from_le (dek_wrap (kdf_kek (serial_of default_sn opt_sn) salt) dek).1
    kcv = ap (λ x. x.dek_kcv) e ∙ chosen _
