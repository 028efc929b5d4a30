-- ===== src/Tests/Guards.antt =====
-- The theorems on stored receipts and on the login, at concrete values.
use receipt_manager.Prelude.{
  ◌+◌, ◌*◌, ◌≡◌, refl, true, none, some, [], ◌∷◌, Text, codes, length, ltb, text_eq,
}
use receipt_manager.Models.{seconds}
use receipt_manager.Storage.{
  Disk, Images, StoredFile, store_receipt_bytes, refuse_download, verify_written, checksum_differs,
  assert_durable,
}
use receipt_manager.Storage.Capture.{stored_is_durable}
use receipt_manager.Security.{User, is_locked_out, register_failed_login}
use receipt_manager.Security.Lockout.{fail_at, lockout_lem}

abbrev pub bytes : Text
bytes = codes "abc"

abbrev pub disk : Disk
disk = record { is_inside = λ path. true; contents = λ path. some bytes; sha256 = λ s. s }

abbrev pub images : Images
images = record {
  sniff_mime = λ s name. codes "image/png";
  is_supported = λ mime. true;
  normalize_file = λ s. some (record {
    path = codes "2024/01/a.png";
    mime = codes "image/png";
    size = length s;
    width = none;
    height = none;
    converted_from = none;
  });
  read_back = λ s path. some s;
  make_thumbnail = λ n. none;
}

abbrev pub file : StoredFile
file = record {
  rel_path = codes "2024/01/a.png";
  thumb_rel_path = none;
  mime = codes "image/png";
  size = 3;
  sha256 = bytes;
  width = none;
  height = none;
  converted_from = none;
}

stored_is_durable_example : assert_durable disk (codes "2024/01/a.png") bytes 3 ≡ none
unfolding store_receipt_bytes refuse_download verify_written checksum_differs text_eq
stored_is_durable_example = stored_is_durable disk images bytes none (some 3) file refl refl refl

abbrev pub user : User
user = record {
  id = 1;
  username = codes "ann";
  password_hash = codes "h";
  is_admin = true;
  totp_secret = none;
  failed_logins = 0;
  locked_until = none;
  last_login_at = none;
}

abbrev twice_wrong : User
twice_wrong = fail_at 3 15 (10 ∷ 20 ∷ []) user

lockout_lem_example :
    (is_locked_out 40 twice_wrong ≡ is_locked_out 40 user)
    × (is_locked_out 40 (register_failed_login 3 15 30 twice_wrong)
        ≡ ltb 40 (30 + seconds (15 * 60)))
lockout_lem_example = lockout_lem 3 15 (10 ∷ 20 ∷ []) 30 40 user refl refl
