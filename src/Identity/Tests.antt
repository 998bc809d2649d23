-- ===== src/Identity/Tests.antt =====
-- Runs of login, logout and refresh of the staff on concrete tables.
use laundry_platform.Base.{[], ◌∷◌, none, some, true, ◌≡◌, refl, str_eq, find_key, update_key}
use laundry_platform.Base.Text.{trim_space}
use laundry_platform.Db.{
  calm, start, exit, ◌>>=◌, respond_if, query_pool, exec_pool, row_or, done_or, pure, respond,
}
use laundry_platform.Identity.Staff.{
  Tables, error, json, Calls, Fresh, user_by_identifier, roles_for_user, outlets_for_user,
  grants_of, issue_staff_session, issue_with, insert_session, touch_user, session_by_hash, is_over,
  name_or_empty, or_empty, renew, revoke_id, staff_login, staff_refresh, staff_logout,
}
use laundry_platform.Identity.Staff.Logout.{logout-ends_session}

-- Texts are their own hashes.
abbrev plain : Calls
plain = record {
  hash_token = λ token. token;
  verify_password = λ password hash. str_eq password hash;
  issue = λ id roles outlets. some "jwt";
  refresh_ttl = 100;
}

abbrev staff : Tables
staff = record {
  users =
      record {
        id = "u1";
        email = some "ani@example.org";
        phone = none;
        full_name = "Ani";
        password_hash = "secret";
        is_active = true;
        last_login_at = none;
      }
      ∷ [];
  user_roles = record { user_id = "u1"; value = "KASIR" } ∷ [];
  user_outlets = record { user_id = "u1"; value = "o1" } ∷ [];
  sessions = [];
}

abbrev first : Fresh
first = record { refresh_token = "t1"; session_id = "s1"; now = 10 }

abbrev second : Fresh
second = record { refresh_token = "t2"; session_id = "s2"; now = 20 }

abbrev third : Fresh
third = record { refresh_token = "t3"; session_id = "s3"; now = 30 }

abbrev logged_in : Tables
logged_in = (staff_login plain first " ani@example.org " "secret" (start calm staff)).1.tables

logs_in :
    (staff_login plain first " ani@example.org " "secret" (start calm staff)).0
    ≡ exit (
        json 200 (record {
          access_token = "jwt";
          refresh_token = "t1";
          user_id = "u1";
          full_name = "Ani";
          roles = "KASIR" ∷ [];
        }))
unfolding staff_login ◌>>=◌ start respond_if query_pool exec_pool row_or done_or pure respond
    find_key update_key trim_space user_by_identifier roles_for_user outlets_for_user grants_of
    issue_staff_session issue_with insert_session touch_user
logs_in = refl

-- A token is good for one refresh.
refreshes_once :
    let refreshed = staff_refresh plain second "t1" (start calm logged_in) in
    (refreshed.0
      ≡ exit (
          json 200 (record {
            access_token = "jwt";
            refresh_token = "t2";
            user_id = "u1";
            full_name = "Ani";
            roles = "KASIR" ∷ [];
          })))
    × ((staff_refresh plain third "t1" (start calm refreshed.1.tables)).0
        ≡ exit (error 401 "TOKEN_REVOKED"))
unfolding staff_login staff_refresh ◌>>=◌ start respond_if query_pool exec_pool row_or done_or pure
    respond find_key update_key trim_space user_by_identifier roles_for_user outlets_for_user
    grants_of issue_staff_session issue_with insert_session touch_user session_by_hash is_over
    name_or_empty or_empty renew revoke_id
refreshes_once = (refl, refl)

logout-ends_session_example :
    let t' = (staff_logout plain 15 "t1" (start calm logged_in)).1.tables in
    ((staff_refresh plain second "t1" (start calm t')).0 ≡ exit (error 401 "TOKEN_REVOKED"))
    × ((staff_refresh plain second "t1" (start calm t')).1.tables ≡ t')
logout-ends_session_example = logout-ends_session plain 15 "t1" logged_in second calm
