-- ===== src/Identity/Staff/Logout.antt =====
-- A session ends with the logout (services/identity/internal/handler/refresh_logout.go).
use laundry_platform.Base.{
  ℕ, String, List, [], ◌∷◌, some, true, false, ◌≡◌, refl, sym, ap, ◌∙◌, arith, str_eq, is_some,
  find,
}
use laundry_platform.Db.{Reply, calm, start, exit, ◌>>=◌, respond, row_or, exec_pool}
use laundry_platform.Db.Runs.{Runs, Runs-total, Runs-pure, Runs-respond_bind, Runs-respond_if, idle}
use laundry_platform.Db.Calls.{Runs-query_pool}
use laundry_platform.Identity.Staff.{
  Tables, Session, error, Calls, Fresh, session_by_hash, is_over, revoke_hash, staff_refresh,
  staff_logout,
}

-- Whatever is found under the hash has been revoked.
found-revoked :
    (hash : String) (now : ℕ) (ss : List Session) (s : Session)
    → find (λ (x : Session). str_eq x.refresh_token_hash hash) (revoke_hash hash now ss) ≡ some s
    → is_some s.revoked_at ≡ true
unfolding revoke_hash
found-revoked hash now [] s e = absurd (cc)
found-revoked hash now (x ∷ ss) s e = ground (arith, found-revoked hash now ss s)

module _ (calls : Calls) (fresh : Fresh) (token : String) (t : Tables)
    (over : (s : Session)
      → session_by_hash (calls.hash_token token) t ≡ some s
      → is_some s.revoked_at ≡ true) where
  refused-Runs :
      Runs t idle
        (staff_refresh calls fresh token)
        (λ r x. (r ≡ error 401 "TOKEN_REVOKED") × (x ≡ t))
  unfolding staff_refresh row_or is_over
  refused-Runs =
      Runs-query_pool _ _
        (λ s found. Runs-pure _ _ (
          Runs-respond_if _ _ _ _ (λ e. (refl, refl))
            (λ e. absurd (still_over s (over s found) e))))
        (λ e. Runs-respond_bind _ _ (refl, refl)) (Runs-respond_bind _ _ (refl, refl))
    where
      still_over : (s : Session) → is_some s.revoked_at ≡ true → is_over s fresh.now ≡ false → ⊥
      still_over s e q = ground (arith, e, q)

logged_out :
    (calls : Calls) (now : ℕ) (token : String) (t : Tables)
    → (staff_logout calls now token (start calm t)).1.tables
      ≡ record t { sessions = revoke_hash (calls.hash_token token) now t.sessions }
unfolding staff_logout ◌>>=◌ respond exec_pool start
logged_out calls now token t = refl

-- After a logout whose statement came through, a refresh with the same token is answered 401
-- TOKEN_REVOKED and changes no table, whatever the replies of the database to the refresh.
pub logout-ends_session :
    (calls : Calls) (now : ℕ) (token : String) (t : Tables) (fresh : Fresh) (net : ℕ → Reply)
    → let t' = (staff_logout calls now token (start calm t)).1.tables in
      ((staff_refresh calls fresh token (start net t')).0 ≡ exit (error 401 "TOKEN_REVOKED"))
      × ((staff_refresh calls fresh token (start net t')).1.tables ≡ t')
unfolding session_by_hash
logout-ends_session calls now token t fresh net =
    let t' = (staff_logout calls now token (start calm t)).1.tables in
    let (r, answer, (is, same)) =
      Runs-total (refused-Runs calls fresh token t' revoked_there) net in
    (answer ∙ ap exit is, same)
  where
    revoked_there :
        (s : Session)
        → session_by_hash
            (calls.hash_token token)
            (staff_logout calls now token (start calm t)).1.tables
          ≡ some s
        → is_some s.revoked_at ≡ true
    revoked_there s e = found-revoked (calls.hash_token token) now t.sessions s (
        ap (λ x. session_by_hash (calls.hash_token token) x) (sym (logged_out calls now token t))
        ∙ e)
