-- ===== src/Security/Lockout.antt =====
-- How many wrong passwords lock an account, and for how long.
use receipt_manager.Prelude.{
  ℕ, ◌+◌, ◌*◌, ◌<◌, ◌≡◌, refl, true, false, List, [], ◌∷◌, length, ltb, leb, arith,
}
use receipt_manager.Models.{seconds}
use receipt_manager.Security.{User, is_locked_out, register_failed_login}

module _ (max_attempts lockout_minutes : ℕ) where
  -- wrong passwords at some times, the first of them first
  unfoldable pub fail_at : List ℕ → User → User
  fail_at [] user = user
  fail_at (now ∷ times) user =
      fail_at times (register_failed_login max_attempts lockout_minutes now user)

  below :
      (times : List ℕ) (user : User)
      → user.failed_logins + length times < max_attempts
      → ((fail_at times user).failed_logins ≡ user.failed_logins + length times)
        × ((fail_at times user).locked_until ≡ user.locked_until)
  unfolding fail_at register_failed_login
  below [] user h = (omega arith, refl)
  below (now ∷ times) user h =
      let next : User = record user { failed_logins = user.failed_logins + 1 } in
      let later = below times next (omega arith) in
      let open_still : leb max_attempts (user.failed_logins + 1) ≡ false = ground arith in
      rw (open_still, fail_at) (omega (arith, later.0), later.1)

  -- An account with no failure behind it stays as open as it was through one wrong password fewer
  -- than the limit. The next one locks it: it is locked out at each later time that is before the
  -- minutes of the settings have passed, and at no time after them.
  pub lockout_lem :
      (times : List ℕ) (now later : ℕ) (user : User)
      → user.failed_logins ≡ 0
      → length times + 1 ≡ max_attempts
      → let before = fail_at times user in
        let after = register_failed_login max_attempts lockout_minutes now before in
        (is_locked_out later before ≡ is_locked_out later user)
        × (is_locked_out later after ≡ ltb later (now + seconds (lockout_minutes * 60)))
  unfolding register_failed_login is_locked_out
  lockout_lem times now later user none_yet last =
      let kept = below times user (omega (arith, none_yet)) in
      let full : leb max_attempts ((fail_at times user).failed_logins + 1) ≡ true =
        rw kept.0 (ground (arith, none_yet)) in
      (rw kept.1 refl, rw full refl)
