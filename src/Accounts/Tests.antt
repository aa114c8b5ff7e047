-- ===== src/Accounts/Tests.antt =====
-- The layout theorem at one re-encrypted, accepted share of three bytes.
use ika_pre_alpha.Prelude.{◌≡◌, refl, true, some, [], ◌∷◌, arith}
use ika_pre_alpha.Attested.Sample.{repeated}
use ika_pre_alpha.Accounts.Variable.{
  EncryptedUserSecretKeyShareAccount, read_encrypted_user_secret_key_share_unverified,
}
use ika_pre_alpha.Accounts.Variable.Layout.{
  IsSized, laid_out, read_encrypted_user_secret_key_share_unverified-laid_out,
}

abbrev a_share_account : EncryptedUserSecretKeyShareAccount
a_share_account = record {
  dwallet = repeated 32 [];
  encryption_key_owner = repeated 31 (7 ∷ []);
  source_share = repeated 30 (8 ∷ 9 ∷ []);
  is_re_encrypted = true;
  created_epoch = 70_000;
  bump = 254;
  accepted = true;
  reserved = repeated 7 [];
  acceptance_signature = repeated 63 (3 ∷ []);
  acceptance_digest = repeated 31 (4 ∷ []);
  encrypted_share = 1 ∷ 2 ∷ 3 ∷ [];
}

a_share_account-IsSized : IsSized a_share_account
a_share_account-IsSized = record {
  dwallet = refl;
  owner = refl;
  source = refl;
  epoch = omega arith;
  reserved = refl;
  share = omega arith;
  signature = refl;
  digest = refl;
}

read_encrypted_user_secret_key_share_unverified-laid_out_example :
    read_encrypted_user_secret_key_share_unverified (laid_out a_share_account)
    ≡ some a_share_account
read_encrypted_user_secret_key_share_unverified-laid_out_example =
    read_encrypted_user_secret_key_share_unverified-laid_out a_share_account a_share_account-IsSized
