-- ===== src/Accounts/Variable/Layout.antt =====
-- The encrypted share account as the program lays it out, and that it is read back.
use ika_pre_alpha.Prelude.{
  ℕ, ◌+◌, ◌^◌, ◌<◌, ◌≡◌, refl, sym, ap, ◌∙◌, true, some, List, [], ◌∷◌, ◌==◌, length, take, drop,
  arith, Bool,
}
use ika_pre_alpha.Prelude.Bytes.{Bytes, to_le, length-to_le}
use ika_pre_alpha.Accounts.{AccountEntry, byte_at, read_u16, when}
use ika_pre_alpha.Accounts.Chunks.{
  joined, total, drop-joined, length-joined, slice-joined, byte_at-joined, read_u16-joined,
  read_u64-joined, flag, flag-read,
}
use ika_pre_alpha.Accounts.Variable.{
  is_whole, encrypted_user_secret_key_share_entry, EncryptedUserSecretKeyShareAccount,
  read_encrypted_user_secret_key_share_unverified,
}

-- The widths of the fields that have one, and the numbers that fit.
pub record IsSized (a : EncryptedUserSecretKeyShareAccount) : Type 0 where
  pub dwallet : length a.dwallet ≡ 32
  pub owner : length a.encryption_key_owner ≡ 32
  pub source : length a.source_share ≡ 32
  pub epoch : a.created_epoch < 2 ^ 64
  pub reserved : length a.reserved ≡ 7
  pub share : length a.encrypted_share < 65_536
  pub signature : length a.acceptance_signature ≡ 64
  pub digest : length a.acceptance_digest ≡ 32

-- The fields before the encrypted share: the header, the dWallet, the holder's key, the source share,
-- the re-encryption flag, the epoch, the bump, the accepted flag, the reserved bytes, the share's
-- length, the signature and the digest.
abbrev pub fixed_part : EncryptedUserSecretKeyShareAccount → List Bytes
fixed_part a =
    (101 ∷ 1 ∷ [])
    ∷ a.dwallet
    ∷ a.encryption_key_owner
    ∷ a.source_share
    ∷ (flag a.is_re_encrypted ∷ [])
    ∷ to_le 8 a.created_epoch
    ∷ (a.bump ∷ [])
    ∷ (flag a.accepted ∷ [])
    ∷ a.reserved
    ∷ to_le 2 (length a.encrypted_share)
    ∷ a.acceptance_signature
    ∷ a.acceptance_digest
    ∷ []

abbrev pub laid_out : EncryptedUserSecretKeyShareAccount → Bytes
laid_out a = joined (fixed_part a) a.encrypted_share

-- The fields before the first k, and the bytes after them.
abbrev before : EncryptedUserSecretKeyShareAccount → ℕ → List Bytes
before a k = take k (fixed_part a)

abbrev after : EncryptedUserSecretKeyShareAccount → ℕ → Bytes
after a k = joined (drop k (fixed_part a)) a.encrypted_share

when-read {ℓ} : {A : Type ℓ} → {b : Bool} → {x y : A} → b ≡ true → x ≡ y → when b x ≡ some y
when-read {x = x} b_true same = ap (λ b. when b x) b_true ∙ ap some same

is_whole-sized :
    (bytes : Bytes) (entry : AccountEntry) (size_at size : ℕ)
    → byte_at bytes 0 ≡ entry.discriminator
    → read_u16 bytes size_at ≡ size
    → length bytes ≡ entry.data_len + size
    → is_whole bytes entry size_at ≡ true
unfolding is_whole
is_whole-sized bytes entry size_at size first counted long = ground arith

-- An encrypted share account of the program's widths, whose numbers fit, is read back from its layout
-- field by field, the share being the rest of the account.
pub read_encrypted_user_secret_key_share_unverified-laid_out :
    (a : EncryptedUserSecretKeyShareAccount)
    → IsSized a
    → read_encrypted_user_secret_key_share_unverified (laid_out a) ≡ some a
unfolding read_encrypted_user_secret_key_share_unverified is_whole
read_encrypted_user_secret_key_share_unverified-laid_out a sized =
    let d1 = sized.dwallet in
    let d2 = sized.owner in
    let d3 = sized.source in
    let d4 : length (to_le 8 a.created_epoch) ≡ 8 = length-to_le 8 a.created_epoch in
    let d5 = sized.reserved in
    let d7 = sized.signature in
    let d8 = sized.digest in
    let size : length (laid_out a) ≡ 214 + length a.encrypted_share =
      length-joined (fixed_part a) a.encrypted_share ∙ omega arith in
    let share_size : read_u16 (laid_out a) 116 ≡ length a.encrypted_share =
      read_u16-joined (before a 9) (after a 10) 116 (length a.encrypted_share) (omega arith)
        sized.share in
    let whole : total (fixed_part a) ≡ 214 = omega arith in
    let e11 : drop 214 (laid_out a) ≡ a.encrypted_share =
      ap (λ n. drop n (laid_out a)) (sym whole) ∙ drop-joined (fixed_part a) a.encrypted_share in
    let entry = encrypted_user_secret_key_share_entry in
    let guarded =
      is_whole-sized (laid_out a) entry 116 (length a.encrypted_share) refl share_size size in
    when-read guarded (λ i. record {
      dwallet =
          (slice-joined (before a 1) a.dwallet (after a 2) 2 34 (omega arith) (omega arith)) i;
      encryption_key_owner =
          (slice-joined (before a 2) a.encryption_key_owner (after a 3) 34 66 (omega arith)
              (omega arith))
            i;
      source_share =
          (slice-joined (before a 3) a.source_share (after a 4) 66 98 (omega arith) (omega arith))
            i;
      is_re_encrypted =
          (ap (λ b. b == 1) (byte_at-joined (before a 4) (after a 4) 98 0 (omega arith))
              ∙ flag-read a.is_re_encrypted)
            i;
      created_epoch =
          (read_u64-joined (before a 5) (after a 6) 99 a.created_epoch (omega arith) sized.epoch) i;
      bump = (byte_at-joined (before a 6) (after a 6) 107 0 (omega arith)) i;
      accepted =
          (ap (λ b. b == 1) (byte_at-joined (before a 7) (after a 7) 108 0 (omega arith))
              ∙ flag-read a.accepted)
            i;
      reserved =
          (slice-joined (before a 8) a.reserved (after a 9) 109 116 (omega arith) (omega arith)) i;
      acceptance_signature =
          (slice-joined (before a 10) a.acceptance_signature (after a 11) 118 182 (omega arith)
              (omega arith))
            i;
      acceptance_digest =
          (slice-joined (before a 11) a.acceptance_digest (after a 12) 182 214 (omega arith)
              (omega arith))
            i;
      encrypted_share = e11 i;
    })
